-- ===== src/Slplus/Channel.antt =====
-- The port modes that `init_channel` of slap/slplus.c sets.
use slap.Base.{Bool, true, false}
use slap.Serial.Modes.{
  Flag, Control, Setting, Modes, noflsh, clocal, cread, hupcl, brkint, vmin, vtime, disabled, value,
}

-- The flags that are set; it clears all others that it names.
unfoldable pub raw_flag : Flag → Bool
raw_flag noflsh = true
raw_flag clocal = true
raw_flag cread = true
raw_flag hupcl = true
raw_flag _ = false

unfoldable pub raw_control : Control → Setting
raw_control vmin = value 0
raw_control vtime = value 1
raw_control _ = disabled

unfoldable pub init_channel : Modes → Modes
init_channel m = record { flag = raw_flag; control = raw_control; bits = 8 }

-- `connect` adds BRKINT when the printer is known.
unfoldable pub with_brkint : Modes → Modes
with_brkint m = record m { flag = λ f. elim f [ brkint ↦ true | other ↦ m.flag other ] }
