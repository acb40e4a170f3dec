-- ===== src/Protocol/Registry/Default.antt =====
-- `build_default_registry` of registry/builder.rs: the registrations in the order of the source.
mod Login
mod Session
mod World
use infrarust.Common.{List, [], ◌++◌}
use infrarust.Protocol.Registry.{PacketRegistry, PacketRegistration, register_all}
use infrarust.Protocol.Registry.Default.Login.{handshake_status, login_table, config_table}
use infrarust.Protocol.Registry.Default.Session.{play_commands, play_session, play_chat_title}
use infrarust.Protocol.Registry.Default.World.{play_world, play_serverbound}

unfoldable pub default_registrations : List PacketRegistration
default_registrations =
    handshake_status
    ++ (login_table
        ++ (config_table
            ++ (play_commands
                ++ (play_session ++ (play_chat_title ++ (play_world ++ (play_serverbound)))))))

abbrev pub build_default_registry : PacketRegistry
build_default_registry = register_all default_registrations []
