-- ===== src/Slpro/Channel.antt =====
-- The port modes that `init_channel` of slap/slpro.c sets.
use slap.Base.{Bool, true, false}
use slap.Serial.Modes.{
  Flag, Control, Setting, Modes, ixon, noflsh, clocal, cread, hupcl, vstop, vstart, vmin, vtime,
  value,
}

-- The flags that are set, IXON among them; it clears all others.
unfoldable pub serial_flag : Flag → Bool
serial_flag ixon = true
serial_flag noflsh = true
serial_flag clocal = true
serial_flag cread = true
serial_flag hupcl = true
serial_flag _ = false

-- XOFF and XON stop and start the output; the characters for signals stay as they are.
unfoldable pub serial_control : (Control → Setting) → Control → Setting
serial_control old vstop = value 0x13
serial_control old vstart = value 0x11
serial_control old vmin = value 0
serial_control old vtime = value 1
serial_control old other = old other

unfoldable pub init_channel : Modes → Modes
init_channel m = record { flag = serial_flag; control = serial_control m.control; bits = 8 }
