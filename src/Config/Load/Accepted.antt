-- ===== src/Config/Load/Accepted.antt =====
-- What holds of every configuration that `load_text`, of src/config.rs, accepts.
use dnsrivet.Prelude.{List, [], ◌∷◌}
use dnsrivet.Prelude.Texts.{Text}
use dnsrivet.Config.Upstreams.{RawUpstream, Upstream}
use dnsrivet.Config.Valid.{IsValid}
use dnsrivet.Config.Load.{Config}

-- One valid upstream for each section, in the same order.
abbrev pub AllValid : List (Text × RawUpstream) → List Upstream → Type 0
AllValid [] [] = Unit
AllValid [] (_ ∷ _) = ⊥
AllValid (_ ∷ _) [] = ⊥
AllValid ((_, raw) ∷ sections) (u ∷ upstreams) = IsValid raw u × AllValid sections upstreams
