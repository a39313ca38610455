-- ===== src/Prelude/Sort.antt =====
-- `list.sort` with a key: a stable insertion sort by a Boolean order.

use mathlib.Core.Bool.{Bool, true, false, ◌&&◌, ◌||◌}
use mathlib.Core.List.{List, [], ◌∷◌}
use bytedesk_agent_delivery.Prelude.Tests.{Text, ltb, ◌==◌, ◌=ₜ◌, if◌then◌else◌}

-- `a < b` on texts: the order of their code points, which is that of their UTF-8 bytes.
unfoldable pub text_less : Text → Text → Bool
text_less xs [] = false
text_less [] (y ∷ ys) = true
text_less (x ∷ xs) (y ∷ ys) = ltb x y || ((x == y) && text_less xs ys)

-- `a < b` and `a == b` on tuples of texts.
unfoldable pub texts_less : List Text → List Text → Bool
unfolding text_less
texts_less [] bs = false
texts_less (a ∷ as') [] = false
texts_less (a ∷ as') (b ∷ bs) = text_less a b || (a =ₜ b && texts_less as' bs)

unfoldable pub texts_equal : List Text → List Text → Bool
texts_equal [] [] = true
texts_equal (a ∷ as') (b ∷ bs) = a =ₜ b && texts_equal as' bs
texts_equal _ _ = false

module _ {ℓ} {A : Type ℓ} where
  unfoldable pub insert : (A → A → Bool) → A → List A → List A
  insert less x [] = x ∷ []
  insert less x (y ∷ ys) = if less y x then y ∷ insert less x ys else x ∷ y ∷ ys

  unfoldable pub sort : (A → A → Bool) → List A → List A
  unfolding insert
  sort less [] = []
  sort less (x ∷ xs) = insert less x (sort less xs)
