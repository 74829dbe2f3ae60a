-- ===== src/System/Forward.antt =====
-- From the RS485 line to the CAN queue: the way of one message through the whole firmware.
use zephyr_can_converter_uni.Platform.{Platform}
