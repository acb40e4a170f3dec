-- ===== src/Protocol/Dispatch/Frame.antt =====
-- A packet and the default registry: the payload of its encoder, in a frame with the id of its type.
use infrarust.Common.{ℕ, ◌≡◌, true, some}
use infrarust.Protocol.Version.{ProtocolVersion, supported}
use infrarust.Protocol.Registry.{PacketRegistration, get_packet_id}
use infrarust.Protocol.Registry.Keys.{registry_key}
use infrarust.Protocol.Registry.Table.{listed}
use infrarust.Protocol.Registry.Default.{default_registrations, build_default_registry}
use infrarust.Protocol.Registry.Decodes.{is_read, IsIn}
use infrarust.Protocol.Dispatch.{Packet, packet_type}

-- The packet is read under its registration: the proxy reads the type, and the version has it.
pub record Registered (r : PacketRegistration) (version : ProtocolVersion) (id : ℕ) (p : Packet)
    : Type 0 where
  pub member : IsIn r default_registrations
  pub read : is_read r ≡ true
  pub same_type : r.packet ≡ packet_type p
  pub within : listed version supported ≡ true
  pub has_id :
      get_packet_id build_default_registry (registry_key r.state r.direction version) r.packet
      ≡ some id
