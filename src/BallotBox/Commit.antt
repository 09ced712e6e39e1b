-- ===== src/BallotBox/Commit.antt =====
-- commit_at of cpp/ballot_box.cc does what the queue of tasks does.
use hit_consistency.Prelude.{
  append_assoc, append-nil, subst, ℕ, zero, suc, ◌+◌, ◌-◌, ◌≤◌, ◌<◌, ◌≡◌, ◌↔◌, refl, ap, sym, ◌∙◌,
  Bool, true, false, Option, none, some, List, [], ◌∷◌, ◌++◌, map, length, get_elem?, get_elem?-lt,
  set, ltb, if◌then◌else◌, Eq, nat_eq, Distinct, arith, Bool-cases, inl, inr, InRange,
}
use hit_consistency.Ballot.{Ballot, PosHint, init, granted, grant_all, grant_hinted}
use hit_consistency.Ballot.Quorum.{Elected, old_list, granted_iff, grant-hint_irrelevant}
use hit_consistency.BallotBox.{Granting, grant_task, grant_at, grant_loop, pop_committed}
use hit_consistency.BallotBox.Tasks.{
  Task, update, elected_by, elected, vote, fresh, vote_all, behind, newly, leading,
}

bool_eq : (a b : Bool) → (a ≡ true) ↔ (b ≡ true) → a ≡ b
bool_eq true b h = sym (h.0 refl)
bool_eq false true h = h.1 refl
bool_eq false false h = refl

oo_step :
    (i : ℕ) (b : Bool) (oo oo' rest : List ℕ)
    → oo' ≡ (if b then oo ++ i ∷ [] else oo)
    → oo' ++ rest ≡ oo ++ (if b then i ∷ rest else rest)
oo_step i true oo oo' rest h = rw h (append_assoc oo (i ∷ []) rest)
oo_step i false oo oo' rest h = rw h

-- No peer stands twice in a configuration of the task.
abbrev pub IsValid : {P : Type 0} ⦃e : Eq P⦄ → Task P → Type 0
IsValid t = Distinct t.conf × Distinct (old_list t.old_conf)

abbrev pub AllValid : {P : Type 0} ⦃e : Eq P⦄ → List (Task P) → Type 0
AllValid [] = Unit {0}
AllValid (t ∷ ts) = IsValid t × AllValid ts

module _ {A B : Type 0} where
  map-update :
      (g : A → B) (f : A → A) (xs : List A) (k : ℕ) {x : A} (y : B)
      → get_elem? xs k ≡ some x
      → g (f x) ≡ y
      → set (map g xs) k y ≡ map g (update xs k f)
  map-update g f [] k y h e = refl
  map-update g f (x ∷ xs) zero y h e = ground (arith, h, e)
  map-update g f (x ∷ xs) (suc k) y h e = ap (λ l. g x ∷ l) (map-update g f xs k y h e)

  map-update_same :
      (g : A → B) (f : A → A) (xs : List A) (k : ℕ) {x : A}
      → get_elem? xs k ≡ some x
      → g (f x) ≡ g x
      → map g (update xs k f) ≡ map g xs
  map-update_same g f [] k h e = refl
  map-update_same g f (x ∷ xs) zero h e = ground (arith, h, e)
  map-update_same g f (x ∷ xs) (suc k) h e = ap (λ l. g x ∷ l) (map-update_same g f xs k h e)

  get_elem?-map :
      (g : A → B) (xs : List A) (k : ℕ) {x : A}
      → get_elem? xs k ≡ some x
      → get_elem? (map g xs) k ≡ some (g x)
  get_elem?-map g [] k h = cc
  get_elem?-map g (x ∷ xs) zero h = ground (arith, h)
  get_elem?-map g (x ∷ xs) (suc k) h = get_elem?-map g xs k h

length-update : {A : Type 0} (f : A → A) (xs : List A) (k : ℕ) → length (update xs k f) ≡ length xs
length-update f [] k = refl
length-update f (x ∷ xs) zero = refl
length-update f (x ∷ xs) (suc k) = ap suc (length-update f xs k)

module _ {P : Type 0} ⦃e : Eq P⦄ where
  abbrev pub ballot_of : Task P → Ballot P
  ballot_of t = grant_all t.voters (init t.conf t.old_conf)

  abbrev pub committed_of : Task P → Bool
  committed_of t = t.committed

  ballot_vote :
      (t : Task P) (p : P) (h : PosHint)
      → IsValid t
      → (grant_hinted p (ballot_of t) h).0 ≡ ballot_of (vote p t)
  unfolding vote grant_all
  ballot_vote t p h v = grant-hint_irrelevant t.voters t.conf t.old_conf p h v.0 v.1

  elected_lem :
      (vs conf : List P) (old : Option (List P))
      → (elected_by vs conf old ≡ true) ↔ Elected vs conf old
  elected_lem vs conf none = ground arith
  elected_lem vs conf (some old) = ground arith

  granted-elected : (t : Task P) → IsValid t → granted (ballot_of t) ≡ elected t
  granted-elected t v =
      let a = granted_iff t.voters t.conf t.old_conf v.0 v.1 in
      let b = elected_lem t.voters t.conf t.old_conf in
      bool_eq _ _ ((λ h. b.1 (a.0 h)), (λ h. a.1 (b.0 h)))

  AllValid-get :
      (ts : List (Task P)) (k : ℕ) {t : Task P} → AllValid ts → get_elem? ts k ≡ some t → IsValid t
  AllValid-get [] k v h = absurd (cc)
  AllValid-get (t ∷ ts) zero {t = t'} v h = let q : t ≡ t' = cc in subst IsValid q v.0
  AllValid-get (t ∷ ts) (suc k) v h = AllValid-get ts k v.1 h

  AllValid-update :
      (ts : List (Task P)) (k : ℕ) (p : P) → AllValid ts → AllValid (update ts k (vote p))
  unfolding vote
  AllValid-update [] k p v = v
  AllValid-update (t ∷ ts) zero p v = v
  AllValid-update (t ∷ ts) (suc k) p v = (v.0, AllValid-update ts k p v.1)

  -- The state of the loop of the code, where the tasks are `ts`.
  pub record Follows (g : Granting P) (ts : List (Task P)) : Type 0 where
    pub metas_of : g.metas ≡ map ballot_of ts
    pub flags_of : g.flags ≡ map committed_of ts

  -- One round, at the task `t`, whose ballot becomes `b`.
  module _ (p : P) (index k : ℕ) (g : Granting P) (ts : List (Task P)) (t : Task P)
      (v : AllValid ts) (F : Follows g ts) (at : get_elem? ts k ≡ some t) where
    abbrev voted : Ballot P
    voted = (grant_hinted p (ballot_of t) g.hint).0

    abbrev hint' : PosHint
    hint' = (grant_hinted p (ballot_of t) g.hint).1

    same_ballot : voted ≡ ballot_of (vote p t)
    same_ballot = ballot_vote t p g.hint (AllValid-get ts k v at)

    granted-voted : granted voted ≡ elected_by (p ∷ t.voters) t.conf t.old_conf
    unfolding vote
    granted-voted = ap granted same_ballot ∙ granted-elected (vote p t) (AllValid-get ts k v at)

    metas_voted : set g.metas k voted ≡ map ballot_of (update ts k (vote p))
    metas_voted = rw F.metas_of (map-update ballot_of (vote p) ts k voted at (sym same_ballot))

    flags_kept :
        committed_of (vote p t) ≡ t.committed → g.flags ≡ map committed_of (update ts k (vote p))
    flags_kept h = F.flags_of ∙ sym (map-update_same committed_of (vote p) ts k at h)

    flags_set :
        committed_of (vote p t) ≡ true
        → set g.flags k true ≡ map committed_of (update ts k (vote p))
    flags_set h = rw F.flags_of (map-update committed_of (vote p) ts k true at h)

    flag_at : get_elem? g.flags k ≡ some t.committed
    flag_at = rw F.flags_of (get_elem?-map committed_of ts k at)

    meta_at : get_elem? g.metas k ≡ some (ballot_of t)
    meta_at = rw F.metas_of (get_elem?-map ballot_of ts k at)

    grant_task_lem :
        (g' : Granting P) × (grant_task p g index k (get_elem? g.metas k) ≡ some g')
        × Follows g' (update ts k (vote p))
        × (g'.oo ≡ (if fresh p (get_elem? ts k) then g.oo ++ index ∷ [] else g.oo))
    unfolding vote
    grant_task_lem = elim (Bool-cases (elected_by (p ∷ t.voters) t.conf t.old_conf)) [
      | inr lost ↦ (
        record g { metas = set g.metas k voted; hint = hint' },
        rw (meta_at, granted-voted, lost),
        record { metas_of = metas_voted; flags_of = flags_kept (rw lost (ground arith)) },
        rw (at, lost) (ground arith),
      )
      | inl won ↦ elim (Bool-cases t.committed) [
        | inl old ↦ (
          record g { metas = set g.metas k voted; hint = hint' },
          rw (meta_at, granted-voted, won, flag_at, old),
          record { metas_of = metas_voted; flags_of = flags_kept (rw old refl) },
          rw (at, old) refl,
        )
        | inr new ↦ (
          record g {
            metas = set g.metas k voted;
            hint = hint';
            flags = set g.flags k true;
            oo = g.oo ++ index ∷ [];
          },
          rw (meta_at, granted-voted, won, flag_at, new),
          record { metas_of = metas_voted; flags_of = flags_set (rw (new, won) refl) },
          rw (at, new, won) refl,
        )
      ]
    ]

  grant_at_lem :
      (p : P) (first i : ℕ) (g : Granting P) (ts : List (Task P))
      → AllValid ts
      → Follows g ts
      → first ≤ i
      → i < first + length ts
      → (g' : Granting P) × (grant_at p first g i ≡ some g')
        × Follows g' (update ts (i - first) (vote p))
        × (g'.oo ≡ (if fresh p (get_elem? ts (i - first)) then g.oo ++ i ∷ [] else g.oo))
  unfolding grant_at
  grant_at_lem p first i g ts v F a b =
      let (t, at) = get_elem?-lt ts (i - first) (omega arith) in
      let (g', e, F', o) = grant_task_lem p i (i - first) g ts t v F at in
      let above : ltb i first ≡ false = ground arith in (g', rw above e, F', o)

  pub grant_loop_lem :
      (p : P) (first : ℕ) (is : List ℕ) (g : Granting P) (ts : List (Task P))
      → AllValid ts
      → Follows g ts
      → InRange first (first + length ts) is
      → (g' : Granting P) × (grant_loop p first is g ≡ some g')
        × Follows g' (vote_all p first is ts)
        × (g'.oo ≡ g.oo ++ newly p first is ts)
  unfolding grant_loop vote_all newly
  grant_loop_lem p first [] g ts v F r = (g, refl, F, sym (append-nil g.oo))
  grant_loop_lem p first (i ∷ is) g ts v F r =
      let (g', e, F', o) = grant_at_lem p first i g ts v F r.0 r.1 in
      let ts' = update ts (i - first) (vote p) in
      let r' : InRange first (first + length ts') is =
        rw (length-update (vote p) ts (i - first)) r.2 in
      let (g'', e', F'', o') =
        grant_loop_lem p first is g' ts' (AllValid-update ts (i - first) p v) F' r' in
      (
        g'',
        rw (e, grant_loop) e',
        F'',
        o' ∙ oo_step i (fresh p (get_elem? ts (i - first))) g.oo g'.oo (newly p first is ts') o,
      )

  pub pop_committed_lem :
      (ts : List (Task P))
      → pop_committed (map ballot_of ts) (map committed_of ts)
        ≡ some (record {
          metas = map ballot_of (behind ts);
          flags = map committed_of (behind ts);
          count = leading ts;
        })
  unfolding pop_committed
  pop_committed_lem [] = refl
  pop_committed_lem (t ∷ ts) = elim (Bool-cases t.committed) [
    | inl y ↦ rw (y, pop_committed_lem ts)
    | inr n ↦ rw n
  ]
