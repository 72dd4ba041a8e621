-- ===== src/Control/WriteAhead/Rules/Calls.antt =====
-- What holds after a method, by what held before it.
use kikimora.Prelude.{
  ◌≡◌, refl, Bool, true, false, some, List, [], ◌∷◌, if◌then◌else◌, ◌==◌, arith, string_eq, Result,
  ok, err, Bool-cases, inl, inr,
}
use kikimora.Netip.{Prefix, prefix_eq, prefix_beq_iff}
use kikimora.Routing.Record.{SelectedRoute}
use kikimora.Routing.Machine.{RegistryError}
use kikimora.Routing.Registry.{Registry}
use kikimora.Routing.History.{Call, call}
use kikimora.Routing.History.Sound.{IsSound, call-IsSound}
use kikimora.Control.World.{
  Env, World, Failure, Act, and_then, require, registered, registering, find_prefix,
}
use kikimora.Control.WriteAhead.{Authorized}

-- An outcome meets `Q` where the method succeeded, and `R` where it did not.
pub data Post {ℓ} {A : Type ℓ} (Q : A → World → Type 0) (R : World → Type 0)
    : Result Failure A × World → Type ℓ where
  succeeds : {a : A} {w : World} → Q a w → Post Q R (ok a, w)
  fails : {e : Failure} {w : World} → R w → Post Q R (err e, w)

pub and_then-Post {ℓ κ} :
    {A : Type ℓ} {B : Type κ} {Q : A → World → Type 0} {S : B → World → Type 0} {R : World → Type 0}
    {r : Result Failure A × World} (f : A → Act B)
    → Post Q R r
    → ((a : A) (w : World) → Q a w → Post S R (f a w))
    → Post S R (and_then f r)
unfolding and_then
and_then-Post f (succeeds {a} {w} p) k = k a w p
and_then-Post f (fails p) k = fails p

pub if-Post {ℓ} :
    {A : Type ℓ} {Q : A → World → Type 0} {R : World → Type 0} (b : Bool) (m n : Act A) (w : World)
    → (b ≡ true → Post Q R (m w))
    → (b ≡ false → Post Q R (n w))
    → Post Q R ((if b then m else n) w)
if-Post true m n w h k = h refl
if-Post false m n w h k = k refl

pub guard-Post :
    {P R : World → Type 0} (b : Bool) (e : Failure) (w : World)
    → P w
    → R w
    → Post (λ _. P) R (require b e w)
guard-Post true e w p r = succeeds p
guard-Post false e w p r = fails r

pub passed-Post :
    {P R : World → Type 0} (b : Bool) (e : Failure) (w : World)
    → b ≡ true
    → P w
    → Post (λ _. P) R (require b e w)
passed-Post true e w t p = succeeds p
passed-Post false e w t p = absurd (cc)

pub require-Post :
    {P : World → Type 0} (b : Bool) (e : Failure) (w : World)
    → P w
    → Post (λ _. P) P (require b e w)
require-Post true e w p = succeeds p
require-Post false e w p = fails p

pub Post-weaken {ℓ} :
    {A : Type ℓ} {Q S : A → World → Type 0} {R : World → Type 0} {r : Result Failure A × World}
    → ((a : A) (w : World) → Q a w → S a w)
    → Post Q R r
    → Post S R r
Post-weaken f (succeeds {a} {w} p) = succeeds (f a w p)
Post-weaken f (fails p) = fails p

-- What is known of every state: all requests so far were allowed, and the registry is sound.
abbrev pub Knows : Env → World → Type 0
Knows env w = Authorized w.history × IsSound env.parse_addr w.registry

-- A call of the registry's interface, and what it has made of the map.
abbrev pub Called : Env → Call → World → World → Type 0
Called env c w w' = Knows env w' × (call env.parse_addr c w.registry ≡ ok w'.registry)

registered-Called :
    (env : Env) (c : Call) (r : Result RegistryError Registry) (w : World)
    → call env.parse_addr c w.registry ≡ r
    → Knows env w
    → Post (λ _. Called env c w) (Knows env) (registered r w)
unfolding registered
registered-Called env c (ok r) w m k =
    succeeds ((k.0, call-IsSound env.parse_addr c w.registry k.1 m), m)
registered-Called env c (err e) w m k = fails k

pub registering-Called :
    (env : Env) (c : Call) (f : Registry → Result RegistryError Registry) (w : World)
    → call env.parse_addr c w.registry ≡ f w.registry
    → Knows env w
    → Post (λ _. Called env c w) (Knows env) (registering f w)
unfolding registering
registering-Called env c f w m k = registered-Called env c (f w.registry) w m k

pub find_prefix-prefix :
    (prefix : Prefix) (es : List SelectedRoute) (e : SelectedRoute)
    → find_prefix prefix es ≡ some e
    → e.prefix ≡ prefix
unfolding find_prefix
find_prefix-prefix prefix [] e h = cc
find_prefix-prefix prefix (x ∷ es) e h =
    ground (arith, find_prefix-prefix prefix es e, prefix_beq_iff x.prefix prefix)

pub find_prefix_self :
    (prefix : Prefix) (es : List SelectedRoute) (e : SelectedRoute)
    → find_prefix prefix es ≡ some e
    → find_prefix e.prefix es ≡ some e
unfolding find_prefix
find_prefix_self prefix [] e h = cc
find_prefix_self prefix (x ∷ es) e h = elim (Bool-cases (x.prefix == prefix)) [
  | inl q ↦ ground (arith, prefix_beq_iff x.prefix e.prefix)
  | inr q ↦ ground (
    arith,
    find_prefix_self prefix es e,
    prefix_beq_iff x.prefix e.prefix,
    prefix_beq_iff x.prefix prefix,
    find_prefix-prefix prefix es e,
  )
]
