-- ===== src/Dhcp/Server/Answers.antt =====
-- What the replies of dhcp.py tell the client, read option by option.
use cs305_2026spring_project.Prelude.{ℕ, ◌≡◌, refl, Option, some, Bytes, Text, [], ◌∷◌, ◌++◌, codes}
use cs305_2026spring_project.Codec.Pack.{be32}
use cs305_2026spring_project.Codec.Inet.{inet_aton}
use cs305_2026spring_project.Codec.Utf8.{encode}
use cs305_2026spring_project.Dhcp.State.{Pool, Reply}
use cs305_2026spring_project.Dhcp.Packet.{
  first_option, lease_reply, assemble_nak, mismatch, ack_type,
}

-- The server's addresses parse.
abbrev pub HasAddresses : Pool → Type 0
HasAddresses pool =
    (mask server dns : Bytes) × (inet_aton pool.netmask ≡ some mask)
    × (inet_aton pool.server_ip ≡ some server)
    × (inet_aton pool.dns_ip ≡ some dns)

-- There is a reply, to the client's hardware address and transaction, and it is a DHCPACK (5) of the
-- address, with the pool's netmask, lease time and server.
abbrev pub Acknowledges : Pool → Bytes → ℕ → Text → Option Reply → Type 0
Acknowledges pool mac xid ip reply =
    (a : Reply) × (reply ≡ some a)
    × (first_option 53 a.options ≡ some (5 ∷ []))
    × (a.yiaddr ≡ ip)
    × (a.chaddr ≡ mac)
    × (a.xid ≡ xid)
    × (a.ip_dst ≡ ip)
    × (first_option 1 a.options ≡ inet_aton pool.netmask)
    × (first_option 51 a.options ≡ some (be32 pool.lease_time))
    × (first_option 54 a.options ≡ inet_aton pool.server_ip)

-- There is a reply, to the client's hardware address and transaction, and it is a DHCPNAK (6) without
-- an address, from the server, whose message is the text.
abbrev pub Refuses : Pool → Bytes → ℕ → Text → Option Reply → Type 0
Refuses pool mac xid message reply =
    (n : Reply) × (reply ≡ some n)
    × (first_option 53 n.options ≡ some (6 ∷ []))
    × (first_option 56 n.options ≡ some (encode message))
    × (n.yiaddr ≡ codes "0.0.0.0")
    × (n.chaddr ≡ mac)
    × (n.xid ≡ xid)
    × (first_option 54 n.options ≡ inet_aton pool.server_ip)

pub lease_reply-Acknowledges :
    (pool : Pool) (mac : Bytes) (xid : ℕ) (ip : Text)
    → HasAddresses pool
    → Acknowledges pool mac xid ip (lease_reply ack_type pool mac xid ip)
unfolding lease_reply first_option
lease_reply-Acknowledges pool mac xid ip (mask, server, dns, m, s, d) =
    rw (m, s, d) (_, refl, refl, refl, refl, refl, refl, refl, refl, refl)

pub mismatch-Refuses :
    (pool : Pool) (mac : Bytes) (xid : ℕ) (requested what assigned : Text)
    → HasAddresses pool
    → Refuses pool mac xid
        (codes "requested IP "
          ++ (requested ++ (codes " does not match " ++ (what ++ (codes " " ++ assigned)))))
        (assemble_nak pool mac xid (mismatch requested what assigned))
unfolding assemble_nak mismatch first_option
mismatch-Refuses pool mac xid requested what assigned (mask, server, dns, m, s, d) =
    rw s (_, refl, refl, refl, refl, refl, refl, refl)
