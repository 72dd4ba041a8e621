-- ===== src/Prelude/Perms.antt =====
-- Boolean quantifiers and counts do not depend on the order of a list.
use mathlib.Core.Path.{◌≡◌, refl, ◌∙◌}
use mathlib.Core.Bool.{Bool}
use mathlib.Core.List.{List, Permᴰ}
use native.Mathlib.Omega.{arith}
use kikimora.Prelude.Lists.{any, all, count}

module _ {ℓ} {A : Type ℓ} (p : A → Bool) where
  pub all-perm : {xs ys : List A} → Permᴰ xs ys → all p xs ≡ all p ys
  all-perm Permᴰ.nil = refl
  all-perm (Permᴰ.cons {a} {b} {l₁ = xs} {l₂ = ys} e h) = ground (arith, e, all-perm h)
  all-perm (Permᴰ.swap {a} {b} {a'} {b'} e f) = ground (arith, e, f)
  all-perm (Permᴰ.trans h k) = all-perm h ∙ all-perm k

  pub any-perm : {xs ys : List A} → Permᴰ xs ys → any p xs ≡ any p ys
  any-perm Permᴰ.nil = refl
  any-perm (Permᴰ.cons {a} {b} {l₁ = xs} {l₂ = ys} e h) = ground (arith, e, any-perm h)
  any-perm (Permᴰ.swap {a} {b} {a'} {b'} e f) = ground (arith, e, f)
  any-perm (Permᴰ.trans h k) = any-perm h ∙ any-perm k

  pub count-perm : {xs ys : List A} → Permᴰ xs ys → count p xs ≡ count p ys
  count-perm Permᴰ.nil = refl
  count-perm (Permᴰ.cons {a} {b} {l₁ = xs} {l₂ = ys} e h) = ground (arith, e, count-perm h)
  count-perm (Permᴰ.swap {a} {b} {a'} {b'} e f) = ground (arith, e, f)
  count-perm (Permᴰ.trans h k) = count-perm h ∙ count-perm k
