-- ===== src/Base/Text.antt =====
-- Equality of texts as a decision, which runs at literals and on which proofs split.
use Prim.Native.String.{String}
use mathlib.Core.Path.{◌≡◌, refl}
use mathlib.Core.Logic.{◌↔◌}
use mathlib.Core.Bool.{Bool, true, false, false≢true}
use text.Mathlib.Text.{◌==◌}
use text.Mathlib.TextEquality.{eq_iff}

of_test : (s t : String) (b : Bool) → ((b ≡ true) ↔ (s ≡ t)) → Dec (s ≡ t)
of_test s t true i = yes (i.0 refl)
of_test s t false i = no (λ e. false≢true (i.1 e))

-- `==` on `String`.
unfoldable pub str_dec : Discrete String
unfolding of_test
str_dec s t = of_test s t (s == t) (eq_iff s t)
