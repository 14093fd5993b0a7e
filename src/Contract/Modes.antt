-- ===== src/Contract/Modes.antt =====
-- `Mode`: the two lengths of an output.
use se_skills.Prelude.{Bool, true, false}

pub data Mode : Type 0 where
  full brief : Mode

unfoldable pub mode_eqb : Mode → Mode → Bool
mode_eqb full full = true
mode_eqb brief brief = true
mode_eqb _ _ = false
