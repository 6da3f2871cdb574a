-- ===== src/Apps/Revoked.antt =====
-- A revocation (`SetAppStatus` of chain/x/apps/keeper/keeper.go) is final.
use vapor_chain.Prelude.{
  ℕ, ◌<◌, ◌≡◌, ◌≢◌, sym, ap, ◌∙◌, inl, inr, true, false, ◌≤◌, ◌==◌, Bool-cases, ==_iff, some_inj,
  some, arith, nat_eq,
}
use vapor_chain.Store.{Map, get, set, get-set_self, get-set_ne}
use vapor_chain.Store.Every.{get-Every}
use vapor_chain.Apps.Types.{App}
use vapor_chain.Apps.Env.{Env, State}
use vapor_chain.Apps.Registry.{is_revoked}
use vapor_chain.Apps.Bindings.{counted_up, counted_down}
use vapor_chain.Apps.Writes.{Write, Writes}
use vapor_chain.Apps.Writes.Moves.{IsSingle, Writes-IsSingle}
use vapor_chain.Apps.Writes.Bonds.{IsQueue, Writes-IsQueue}
use vapor_chain.Apps.Counting.{IsCounted, Writes-IsCounted}
use vapor_chain.Apps.Reached.{Reach, Step-Writes}

module _ (E : Env) (id : ℕ) where
  -- The app of the id is there, and is revoked.
  abbrev pub IsRevoked : State E → Type 0
  IsRevoked s = (app : App) × ((get id s.apps ≡ some app) × (is_revoked app.status ≡ true))

  -- An app is replaced: if it is this one, it stays revoked.
  replace-IsRevoked :
      (j : ℕ) (old new : App) (m : Map ℕ App) (app : App)
      → get j m ≡ some old
      → (is_revoked old.status ≡ true → is_revoked new.status ≡ true)
      → get id m ≡ some app
      → is_revoked app.status ≡ true
      → (after : App) × ((get id (set j new m) ≡ some after) × (is_revoked after.status ≡ true))
  replace-IsRevoked j old new m app found kept known gone = elim (Bool-cases (id == j)) [
    | inr other ↦ (app, (get-set_ne j id new m (apart id j other) ∙ known, gone))
    | inl here ↦
        let same : id ≡ j = (==_iff id j).0 here in
        let is : app ≡ old = some_inj app old (sym known ∙ (ap (λ i. get i m) same ∙ found)) in
        (
          new,
          (
            ap (λ i. get i (set j new m)) same ∙ get-set_self j new m,
            kept (ap (λ a. is_revoked a.status) (sym is) ∙ gone),
          ),
        )
  ]
    where
      apart : (i j : ℕ) → (i == j) ≡ false → i ≢ j
      apart i j h e = ground arith

  Write-IsRevoked : {s t : State E} → Write E s t → IsCounted E s → IsRevoked s → IsRevoked t
  Write-IsRevoked (Write.enriches w s more) c h = h
  Write-IsRevoked (Write.moves p u s) c h = h
  Write-IsRevoked (Write.claims m s) c h = h
  Write-IsRevoked (Write.measures stats quotas n start s) c h = h
  Write-IsRevoked (Write.bonds w i x s positive more) c h = h
  Write-IsRevoked (Write.unbonds i x key s positive enough) c h = h
  Write-IsRevoked (Write.releases w key x s found more) c h = h
  Write-IsRevoked (Write.governs p s valid kept) c h = h
  Write-IsRevoked (Write.registers i app s new zero_count) c (a, (known, gone)) =
      let below = get-Every (λ k (_ : App). k < s.next_app_id) id a s.apps c.1.0 known in
      (a, (get-set_ne i id app s.apps (above i below new) ∙ known, gone))
    where
      above : {n : ℕ} (i : ℕ) → id < n → n ≤ i → id ≢ i
      above i a b e = omega arith
  Write-IsRevoked (Write.edits i old new s found same_count kept) c (a, (known, gone)) =
      replace-IsRevoked i old new s.apps a found kept known gone
  Write-IsRevoked (Write.binds x b app s free found room) c (a, (known, gone)) =
      replace-IsRevoked b.app_id app (counted_up E app) s.apps a found (λ h. h) known gone
  Write-IsRevoked (Write.unbinds x b app s held found) c (a, (known, gone)) =
      replace-IsRevoked b.app_id app (counted_down E app) s.apps a found (λ h. h) known gone

  Writes-IsRevoked : {s t : State E} → Writes E s t → IsCounted E s → IsRevoked s → IsRevoked t
  Writes-IsRevoked Writes.no_more c h = h
  Writes-IsRevoked (Writes.and_then ws w) c h =
      Write-IsRevoked w (Writes-IsCounted E ws c) (Writes-IsRevoked ws c h)

  -- What the steps keep together.
  abbrev Kept : State E → Type 0
  Kept s = (IsSingle E s × IsQueue E s) × (IsCounted E s × IsRevoked s)

  Reach-Kept : {s t : State E} → Reach E s t → Kept s → Kept t
  Reach-Kept Reach.here h = h
  Reach-Kept (Reach.next r st) h =
      let ((single, queue), (counted, gone)) = Reach-Kept r h in
      let ws = Step-Writes E st single queue in
      (
        (Writes-IsSingle E ws single, Writes-IsQueue E ws queue),
        (Writes-IsCounted E ws counted, Writes-IsRevoked ws counted gone),
      )

  -- An app that was revoked is there and stays revoked, whatever steps of the module follow. At the
  -- start every app counts its bindings and has an id that was given out, each contract is bound at
  -- most once and each unbonding is kept once.
  pub Reach-IsRevoked :
      {s t : State E}
      → IsSingle E s
      → IsQueue E s
      → IsCounted E s
      → IsRevoked s
      → Reach E s t
      → IsRevoked t
  Reach-IsRevoked single queue counted gone r =
      (Reach-Kept r ((single, queue), (counted, gone))).1.1
