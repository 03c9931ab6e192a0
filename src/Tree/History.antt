-- ===== src/Tree/History.antt =====
-- Any run of `add` and `remove` on a tree of src/phylum/tree.h, against a map from keys to values.
use consfs.Common.{
  ℕ, zero, suc, ◌<◌, ◌≡◌, Bool, false, Option, none, some, List, [], ◌∷◌, refl, arith, inl, inr,
  update, ◌∙◌, ap, ◌>>=◌, ==_iff, ==_ne, eq_or_ne,
}
use consfs.Tree.{Tree}
use consfs.Tree.Find.{find, report, remove, lookup, value_or_zero}
use consfs.Tree.Insert.{add, new}
use consfs.Tree.Invariant.{IsTree}
use consfs.Tree.LeafOverwrite.{after}
use consfs.Tree.Add.{IsWide, add_lem, new_lem}
use consfs.Tree.Remove.{remove_lem}

pub data Op : Type 0 where
  put : ℕ → ℕ → Op
  delete : ℕ → Op

-- The specification: a map from keys to the values last written. A removed key keeps a slot with 0.
abbrev pub apply : Op → (ℕ → Option ℕ) → ℕ → Option ℕ
apply (put key value) m = update m key (some value)
apply (delete key) m = update m key (some 0)

abbrev pub replay : List Op → (ℕ → Option ℕ) → ℕ → Option ℕ
replay [] m = m
replay (op ∷ ops) m = replay ops (apply op m)

abbrev pub shown : Option ℕ → Bool × Option ℕ
shown none = (false, none)
shown (some value) = report value

-- Keys are below `top` and not 0, and a key is removed only if it was put before.
abbrev pub IsAllowed : ℕ → Op → (ℕ → Option ℕ) → Type 0
IsAllowed top (put key value) m = (0 < key) × (key < top)
IsAllowed top (delete key) m = (key < top) × ((v : ℕ) × (m key ≡ some v))

abbrev pub AllAllowed : ℕ → List Op → (ℕ → Option ℕ) → Type 0
AllAllowed top [] m = Unit {0}
AllAllowed top (op ∷ ops) m = IsAllowed top op m × AllAllowed top ops (apply op m)

module _ (inner_width leaf_width : ℕ) (garbage : ℕ → ℕ) where
  unfoldable pub perform : Op → Tree → Option Tree
  perform (put key value) t = add inner_width leaf_width garbage t key value
  perform (delete key) t = remove leaf_width t key >>= λ r. some r.1

  unfoldable pub run : List Op → Tree → Option Tree
  run [] t = some t
  run (op ∷ ops) t = perform op t >>= run ops

-- The tree shows the map.
abbrev pub Shows : ℕ → Tree → (ℕ → Option ℕ) → Type 0
Shows top t m = (q : ℕ) → q < top → find t q ≡ some (shown (m q))

module _ (inner_width leaf_width : ℕ) (garbage : ℕ → ℕ) (wide : IsWide inner_width leaf_width) where
  Shows-after :
      (top key value : ℕ) (t t' : Tree) (m : ℕ → Option ℕ)
      → Shows top t m
      → ((q : ℕ) → q < top → find t' q ≡ after key value q (find t q))
      → Shows top t' (update m key (some value))
  Shows-after top key value t t' m shows reads q h = elim (eq_or_ne q key) [
    | inl e ↦ reads q h ∙ rw ((==_iff q key).1 e) refl
    | inr ne ↦ reads q h ∙ rw (==_ne q key ne) (shows q h)
  ]

  perform-Shows :
      (top : ℕ) (op : Op) (t : Tree) (m : ℕ → Option ℕ)
      → IsTree inner_width leaf_width top t
      → Shows top t m
      → IsAllowed top op m
      → (t' : Tree) × (perform inner_width leaf_width garbage op t ≡ some t')
        × IsTree inner_width leaf_width top t'
        × Shows top t' (apply op m)
  unfolding perform
  perform-Shows top (put key value) t m ok shows allowed =
      let (t', e, ok', reads) =
        add_lem inner_width leaf_width garbage wide top key value t ok allowed.0 allowed.1 in
      (t', e, ok', Shows-after top key value t t' m shows reads)
  perform-Shows top (delete key) t m ok shows (below, (v, held)) =
      let (t', e, ok', reads) =
        remove_lem inner_width leaf_width wide top key t ok below
          (shows key below ∙ ap (λ (o : Option ℕ). some (shown o)) held) in
      (t', rw e refl, ok', Shows-after top key 0 t t' m shows reads)

  -- From a search tree that shows a map, any allowed run of insertions and removals goes through without a
  -- stop, and ends in a search tree that shows the replay of the run on that map.
  pub run-Shows :
      (top : ℕ) (ops : List Op) (t : Tree) (m : ℕ → Option ℕ)
      → IsTree inner_width leaf_width top t
      → Shows top t m
      → AllAllowed top ops m
      → (t' : Tree) × (run inner_width leaf_width garbage ops t ≡ some t')
        × IsTree inner_width leaf_width top t'
        × Shows top t' (replay ops m)
  unfolding run
  run-Shows top [] t m ok shows allowed = (t, refl, ok, shows)
  run-Shows top (op ∷ ops) t m ok shows (first, rest) =
      let (t', e, ok', shows') = perform-Shows top op t m ok shows first in
      let (t'', e', ok'', shows'') = run-Shows top ops t' (apply op m) ok' shows' rest in
      (t'', rw e e', ok'', shows'')

  -- After any allowed run on a new tree `lookup` of a key returns the value last put there, and 0 for a key
  -- that was never put or was removed.
  pub lookup-run :
      (top : ℕ) (ops : List Op) (q : ℕ)
      → AllAllowed top ops (λ _. none)
      → q < top
      → (new inner_width leaf_width garbage >>= λ t.
          run inner_width leaf_width garbage ops t >>= λ t'. lookup t' q)
        ≡ some (elim (replay ops (λ _. none) q) [ none ↦ 0 | some v ↦ v ])
  unfolding lookup
  lookup-run top ops q allowed h =
      let (t, e, ok, reads) = new_lem inner_width leaf_width garbage wide top in
      let (t', e', ok', shows) = run-Shows top ops t (λ _. none) ok (λ q _. reads q) allowed in
      rw (e, e', shows q h) (ap (λ (v : ℕ). some v) (shown_value (replay ops (λ _. none) q)))
    where
      shown_value : (o : Option ℕ) → value_or_zero (shown o) ≡ elim o [ none ↦ 0 | some v ↦ v ]
      shown_value none = refl
      shown_value (some zero) = refl
      shown_value (some (suc v)) = rw (==_ne (suc v) 0 (omega arith)) refl
