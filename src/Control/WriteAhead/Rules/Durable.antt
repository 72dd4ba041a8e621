-- ===== src/Control/WriteAhead/Rules/Durable.antt =====
-- The rules for a role that has a state directory: what its checkpoint file holds after each call.
use kikimora.Prelude.{
  ℕ, String, ◌≡◌, refl, ap, ◌∙◌, Bool, true, false, Option, none, some, ◌∷◌, arith, string_eq,
  eq_iff,
}
use kikimora.Prelude.Map.{lookup}
use kikimora.Netip.{Prefix, prefix_eq}
use kikimora.Routing.Record.{SelectedRoute, active}
use kikimora.Control.World.{
  Request, History, checkpoint, Env, World, and_then, role_state, RoleFlags, answered, ask,
  registry_snapshot, registry_entry, has_dir, write_to, write_checkpoint, save,
}
use kikimora.Control.Transactions.{
  registered_entry, reread, minted_token, mint_verification_token, clear_verification_for_prefix,
}
use kikimora.Control.WriteAhead.{written, rewritten, durable, Held, May}
use kikimora.Control.WriteAhead.Rules.Calls.{Post, Post-weaken, Knows, succeeds, fails}

module _ (env : Env) (role : String) (dir : has_dir env role ≡ true) where
  -- The file holds the registry's present records of the role.
  abbrev pub Synced : World → Type 0
  Synced w = durable role w.history ≡ some (registry_snapshot env role w)

  abbrev pub Sure : World → Type 0
  Sure w = Knows env w × Synced w

  abbrev pub At : Prefix → SelectedRoute → World → Type 0
  At prefix e w = Sure w × (registry_entry env role prefix w ≡ some e)

  pub At-Held :
      (prefix : Prefix) (e : SelectedRoute) (w : World)
      → At prefix e w
      → Held role prefix e w.history
  unfolding registry_entry
  At-Held prefix e w p = (registry_snapshot env role w, p.0.1, p.1)

  durable-other :
      (q : Request) (b : Bool) (h : History)
      → written q ≡ none
      → durable role ((q, b) ∷ h) ≡ durable role h
  unfolding durable
  durable-other q b h t = ap (λ o. rewritten role b o (durable role h)) t

  -- What a checkpoint that was written establishes; it leaves the registry alone.
  abbrev pub Saved : World → World → Type 0
  Saved w w' = Sure w' × (w'.registry ≡ w.registry)

  checkpoint-Saved :
      (generation : ℕ) (answer : Option String) (w : World)
      → Knows env w
      → Post
          (λ _. Saved w)
          (Knows env)
          (answered env (checkpoint role generation (registry_snapshot env role w)) answer w)
  unfolding answered durable registry_snapshot
  checkpoint-Saved generation none w k =
      succeeds ((((tt, k.0), k.1), ground (arith, eq_iff role role)), refl)
  checkpoint-Saved generation (some e) w k = fails ((tt, k.0), k.1)

  write_to-Saved :
      (b : Bool) (generation : ℕ) (w : World)
      → b ≡ true
      → Knows env w
      → Post (λ _. Saved w) (Knows env) (write_to env b role generation w)
  unfolding write_to ask
  write_to-Saved true generation w t k =
      checkpoint-Saved generation
        (env.refuses (checkpoint role generation (registry_snapshot env role w)) w.history) w k
  write_to-Saved false generation w t k = absurd (cc)

  pub write_checkpoint-Saved :
      (generation : ℕ) (w : World)
      → Knows env w
      → Post (λ _. Saved w) (Knows env) (write_checkpoint env role generation w)
  unfolding write_checkpoint
  write_checkpoint-Saved generation w k = write_to-Saved (has_dir env role) generation w dir k

  pub save-Saved : (w : World) → Knows env w → Post (λ _. Saved w) (Knows env) (save env role w)
  unfolding save role_state and_then
  save-Saved w k = write_checkpoint-Saved _ _ k

  pub write_checkpoint-Sure :
      (generation : ℕ) (w : World)
      → Knows env w
      → Post (λ _. Sure) (Knows env) (write_checkpoint env role generation w)
  write_checkpoint-Sure generation w k =
      Post-weaken (λ _ _ p. p.0) (write_checkpoint-Saved generation w k)

  pub save-Sure : (w : World) → Knows env w → Post (λ _. Sure) (Knows env) (save env role w)
  save-Sure w k = Post-weaken (λ _ _ p. p.0) (save-Saved w k)

  answered-Knows :
      (q : Request) (o : Option String) (w : World)
      → May q w.history
      → Knows env w
      → Post (λ _. Knows env) (Knows env) (answered env q o w)
  unfolding answered
  answered-Knows q none w m k = succeeds ((m, k.0), k.1)
  answered-Knows q (some e) w m k = fails ((m, k.0), k.1)

  pub ask-Knows :
      (q : Request) (w : World)
      → May q w.history
      → Knows env w
      → Post (λ _. Knows env) (Knows env) (ask env q w)
  unfolding ask
  ask-Knows q w m k = answered-Knows q (env.refuses q w.history) w m k

  answered-Entry :
      (prefix : Prefix) (e : SelectedRoute) (q : Request) (o : Option String) (w : World)
      → May q w.history
      → Knows env w
      → registry_entry env role prefix w ≡ some e
      → Post
          (λ _ w'. Knows env w' × (registry_entry env role prefix w' ≡ some e))
          (Knows env)
          (answered env q o w)
  unfolding answered registry_entry registry_snapshot
  answered-Entry prefix e q none w m k f = succeeds (((m, k.0), k.1), f)
  answered-Entry prefix e q (some x) w m k f = fails ((m, k.0), k.1)

  pub ask-Entry :
      (prefix : Prefix) (e : SelectedRoute) (q : Request) (w : World)
      → May q w.history
      → Knows env w
      → registry_entry env role prefix w ≡ some e
      → Post
          (λ _ w'. Knows env w' × (registry_entry env role prefix w' ≡ some e))
          (Knows env)
          (ask env q w)
  unfolding ask
  ask-Entry prefix e q w m k f = answered-Entry prefix e q (env.refuses q w.history) w m k f

  answered-At :
      (prefix : Prefix) (e : SelectedRoute) (q : Request) (o : Option String) (w : World)
      → written q ≡ none
      → May q w.history
      → At prefix e w
      → Post (λ _. At prefix e) (Knows env) (answered env q o w)
  unfolding answered durable registry_entry registry_snapshot
  answered-At prefix e q none w t m p =
      succeeds ((((m, p.0.0.0), p.0.0.1), durable-other q true w.history t ∙ p.0.1), p.1)
  answered-At prefix e q (some x) w t m p = fails ((m, p.0.0.0), p.0.0.1)

  pub ask-At :
      (prefix : Prefix) (e : SelectedRoute) (q : Request) (w : World)
      → written q ≡ none
      → May q w.history
      → At prefix e w
      → Post (λ _. At prefix e) (Knows env) (ask env q w)
  unfolding ask
  ask-At prefix e q w t m p = answered-At prefix e q (env.refuses q w.history) w t m p

  answered-Sure :
      (q : Request) (o : Option String) (w : World)
      → written q ≡ none
      → May q w.history
      → Sure w
      → Post (λ _. Sure) (Knows env) (answered env q o w)
  unfolding answered durable registry_snapshot
  answered-Sure q none w t m p =
      succeeds (((m, p.0.0), p.0.1), durable-other q true w.history t ∙ p.1)
  answered-Sure q (some x) w t m p = fails ((m, p.0.0), p.0.1)

  pub ask-Sure :
      (q : Request) (w : World)
      → written q ≡ none
      → May q w.history
      → Sure w
      → Post (λ _. Sure) (Knows env) (ask env q w)
  unfolding ask
  ask-Sure q w t m p = answered-Sure q (env.refuses q w.history) w t m p

  registered_entry-Found :
      (P : SelectedRoute → Type 0) (prefix : Prefix) (found : Option SelectedRoute) (w : World)
      → registry_entry env role prefix w ≡ found
      → ((e : SelectedRoute) → found ≡ some e → P e)
      → Sure w
      → Post (λ e w'. At prefix e w' × P e) (Knows env) (registered_entry env found w)
  unfolding registered_entry
  registered_entry-Found P prefix none w f h p = fails p.0
  registered_entry-Found P prefix (some e) w f h p = succeeds ((p, f), h e refl)

  -- Reading the record again gives the registered one.
  pub reread-Found :
      (P : SelectedRoute → Type 0) (prefix : Prefix) (w : World)
      → ((e : SelectedRoute) → registry_entry env role prefix w ≡ some e → P e)
      → Sure w
      → Post (λ e w'. At prefix e w' × P e) (Knows env) (reread env role prefix w)
  unfolding reread
  reread-Found P prefix w h p =
      registered_entry-Found P prefix (registry_entry env role prefix w) w refl h p

  pub reread-At :
      (prefix : Prefix) (w : World)
      → Sure w
      → Post (λ e. At prefix e) (Knows env) (reread env role prefix w)
  reread-At prefix w p =
      Post-weaken (λ _ _ q. q.0) (reread-Found (λ _. Unit {0}) prefix w (λ _ _. tt) p)

  pub clear_verification-Sure :
      (prefix : Prefix) (w : World)
      → Sure w
      → Post (λ _. Sure) (Knows env) (clear_verification_for_prefix prefix w)
  unfolding clear_verification_for_prefix registry_snapshot
  clear_verification-Sure prefix w p = succeeds p

  -- The registered record is Active, owns what it desires, and the file holds it.
  abbrev pub Verified : Prefix → World → Type 0
  Verified prefix w =
      (e : SelectedRoute) × At prefix e w × (e.state ≡ active) × (e.owned ≡ some e.desired)

  pub save-At :
      (prefix : Prefix) (e : SelectedRoute) (w : World)
      → Knows env w
      → registry_entry env role prefix w ≡ some e
      → Post (λ _. At prefix e) (Knows env) (save env role w)
  unfolding registry_entry registry_snapshot
  save-At prefix e w k f = Post-weaken (λ _ w' p. (p.0, rw p.1 f)) (save-Saved w k)

  pub mint-At :
      (prefix : Prefix) (e x : SelectedRoute) (w : World)
      → At prefix e w
      → Post (λ _. At prefix e) (Knows env) (mint_verification_token role x w)
  unfolding mint_verification_token registry_entry registry_snapshot
  mint-At prefix e x w p = minted (lookup role w.roles)
    where
      minted :
          (o : Option RoleFlags) → Post (λ _. At prefix e) (Knows env) (minted_token role x o w)
      minted none = unfold minted_token in succeeds p
      minted (some s) = unfold minted_token in succeeds p
