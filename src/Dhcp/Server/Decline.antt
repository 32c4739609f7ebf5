-- ===== src/Dhcp/Server/Decline.antt =====
-- DHCPDECLINE, and the messages that the server leaves aside.
use cs305_2026spring_project.Prelude.{text_eq}
use cs305_2026spring_project.Dhcp.State.{State}
