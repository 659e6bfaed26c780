-- ===== src/Codec.antt =====
-- oximqtt/src/codec: the wire format of MQTT.
pub mod Buffer
pub mod Writer
pub mod Utils
pub mod Varlen
pub mod Qos
pub mod V3
pub mod Tests
