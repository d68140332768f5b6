-- ===== src/Serial/Modes.antt =====
-- The modes of a port, `struct termios`, as far as the drivers' `init_channel` sets them.
use slap.Base.{ℕ, Bool}

-- The flags of `struct termios` that they name.
pub data Flag : Type 0 where
  opost ignbrk ignpar parmrk inpck istrip inlcr igncr icrnl ixoff brkint ixon : Flag
  echo echoe echok echonl isig icanon iexten tostop noflsh : Flag
  cstopb parenb parodd clocal cread hupcl : Flag

-- The control characters.
pub data Control : Type 0 where
  vstop vstart vintr vquit vsusp vmin vtime : Control

pub data Setting : Type 0 where
  disabled : Setting
  value : ℕ → Setting

-- The modes of a port; `bits` is the number of data bits, CSIZE.
pub record Modes : Type 0 where
  pub flag : Flag → Bool
  pub control : Control → Setting
  pub bits : ℕ
