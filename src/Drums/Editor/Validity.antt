-- ===== src/Drums/Editor/Validity.antt =====
-- The invariant of the editor's state, and the operations that every case goes through.
use rehearse_kit.Common.{
  All, All-append, All-drop, All-mono, Bool-cases, List, Option, [], arith, drop, if◌then◌else◌,
  inl, inr, leb, length, length-append, length-drop, none, some, true, ℕ, ◌+◌, ◌-◌, ◌<◌, ◌∷◌, ◌≡◌,
  ◌≤◌, All-map, All-of_map,
}
use rehearse_kit.Drums.Double.{Double, IsOrdered}
use rehearse_kit.Drums.Types.{HitId, u, other, DrumEvent}
use rehearse_kit.Drums.Hits.{has, ids_of, is_sorted, sort_hits}
use rehearse_kit.Drums.Hits.Ids.{Within, Distinct}
use rehearse_kit.Drums.Hits.Sorting.{
  Timed, has-sort_hits, Distinct-sort_hits, All-sort_hits, is_sorted-sort_hits,
}
use rehearse_kit.Drums.Editor.{same_array, HitArray, EditorState, history_limit, push_past}
use rehearse_kit.Drums.Editor.Commit.{Patch, committed_past, commit}

-- The number of a manual id is below `n`.
abbrev pub Below : ℕ → HitId → Type 0
Below n (u _ m) = m < n
Below n (other _) = Unit {0}

pub Below-mono : (n m : ℕ) → n ≤ m → (id : HitId) → Below n id → Below m id
Below-mono n m h (u _ k) b = omega arith
Below-mono n m h (other _) b = tt

abbrev pub OnSome : {A : Type 0} → (A → Type 0) → Option A → Type 0
OnSome P none = Unit {0}
OnSome P (some a) = P a

pub OnSome-mono :
    {A : Type 0} (P Q : A → Type 0)
    → ((a : A) → P a → Q a)
    → (o : Option A) → OnSome P o
    → OnSome Q o
OnSome-mono P Q f none h = tt
OnSome-mono P Q f (some a) h = f a h

module _ {F : Type 0} ⦃d : Double F⦄ where
  -- An array of hits as the editor keeps it: made before the next one, sorted by time, every time a number, every manual id
  -- below the next one, and no id twice.
  pub record IsGood (n m : ℕ) (a : HitArray F) : Type 0 where
    pub allocated : a.ref < m
    pub sorted : is_sorted a.items ≡ true
    pub timed : All (Timed {F = F}) a.items
    pub below : All (Below n) (ids_of a.items)
    pub distinct : Distinct (ids_of a.items)

  abbrev pub AllGood : ℕ → ℕ → List (HitArray F) → Type 0
  AllGood n m = All (IsGood n m)

  abbrev pub IsCapped : List (HitArray F) → Type 0
  IsCapped past = length past ≤ history_limit

  pub record IsValid (s : EditorState F) : Type 0 where
    pub current : IsGood s.next_id s.next_ref s.hits
    pub backward : AllGood s.next_id s.next_ref s.past
    pub forward : AllGood s.next_id s.next_ref s.future
    pub start : OnSome (IsGood s.next_id s.next_ref) s.gesture_from
    pub start_past : OnSome (AllGood s.next_id s.next_ref) s.gesture_past
    pub start_future : OnSome (AllGood s.next_id s.next_ref) s.gesture_future
    pub known : Within (ids_of s.hits.items) s.selection
    pub selected_once : Distinct s.selection
    pub capped : IsCapped s.past
    pub start_capped : OnSome IsCapped s.gesture_past
    pub measured : d.finite s.duration ≡ true

  module _ (n n' m m' : ℕ) (h : n ≤ n') (k : m ≤ m') where
    pub IsGood-mono : (a : HitArray F) → IsGood n m a → IsGood n' m' a
    IsGood-mono a g = record {
      allocated = omega arith;
      sorted = g.sorted;
      timed = g.timed;
      below = All-mono (Below n) (Below n') (Below-mono n n' h) (ids_of a.items) g.below;
      distinct = g.distinct;
    }

    pub AllGood-mono : (as' : List (HitArray F)) → AllGood n m as' → AllGood n' m' as'
    AllGood-mono as' = All-mono (IsGood n m) (IsGood n' m') IsGood-mono as'

  pub AllGood-push_past :
      (n m : ℕ) (past : List (HitArray F)) (a : HitArray F)
      → AllGood n m past
      → IsGood n m a
      → AllGood n m (push_past past a)
  unfolding push_past
  AllGood-push_past n m past a h g = elim (Bool-cases (leb history_limit (length past))) [
    | inl e ↦ rw e (
        All-append (IsGood n m) (drop (length past - history_limit + 1) past) (a ∷ [])
          (All-drop (IsGood n m) (length past - history_limit + 1) past h) (g, tt))
    | inr e ↦ rw e (All-append (IsGood n m) past (a ∷ []) h (g, tt))
  ]

  -- The history holds a hundred entries at most; below that a push adds one.
  pub length-push_past :
      (past : List (HitArray F)) (a : HitArray F)
      → length (push_past past a)
        ≡ (if leb history_limit (length past) then history_limit else length past + 1)
  unfolding push_past
  length-push_past past a = ground (
    arith,
    length-append past (a ∷ []),
    length-append (drop (length past - history_limit + 1) past) (a ∷ []),
    length-drop (length past - history_limit + 1) past,
  )

  -- What a commit is given.
  pub record IsReady (s : EditorState F) (items : List (DrumEvent F)) (patch : Patch F)
      : Type 0 where
    pub next : s.next_id ≤ patch.next_id
    pub timed : All (Timed {F = F}) items
    pub below : All (Below patch.next_id) (ids_of items)
    pub distinct : Distinct (ids_of items)
    pub known : Within (ids_of items) patch.selection
    pub selected_once : Distinct patch.selection

  module _ (o : IsOrdered d) where
    pub Within-sort_hits :
        (items : List (DrumEvent F)) (sel : List HitId)
        → Within (ids_of items) sel
        → Within (ids_of (sort_hits items)) sel
    Within-sort_hits items sel h =
        All-mono (λ id. has (ids_of items) id ≡ true)
          (λ id. has (ids_of (sort_hits items)) id ≡ true) (λ id e. rw (has-sort_hits items id) e)
          sel h

    pub All-ids :
        (P : HitId → Type 0) (items : List (DrumEvent F))
        → All P (ids_of items)
        → All P (ids_of (sort_hits items))
    All-ids P items h =
        All-map P (λ a. a.id) (sort_hits items)
          (All-sort_hits (λ a. P a.id) items (All-of_map P (λ a. a.id) items h))

    pub IsGood-sort_hits :
        (n r m : ℕ) (items : List (DrumEvent F))
        → r < m
        → All (Timed {F = F}) items
        → All (Below n) (ids_of items)
        → Distinct (ids_of items)
        → IsGood n m (record { ref = r; items = sort_hits items })
    IsGood-sort_hits n r m items h t b k = record {
      allocated = h;
      sorted = is_sorted-sort_hits o items;
      timed = All-sort_hits (Timed {F = F}) items t;
      below = All-ids (Below n) items b;
      distinct = Distinct-sort_hits items k;
    }

    AllGood-committed_past :
        (s : EditorState F) → IsValid s → AllGood s.next_id s.next_ref (committed_past s)
    unfolding committed_past
    AllGood-committed_past s v =
        let pushed = AllGood-push_past s.next_id s.next_ref s.past s.hits v.backward v.current in
        elim (Bool-cases s.in_gesture) [
          | inl e ↦ elim (Bool-cases (same_array s.gesture_from s.hits)) [
            | inl f ↦ rw (e, f) pushed
            | inr f ↦ rw (e, f) v.backward
          ]
          | inr e ↦ rw e pushed
        ]

    IsCapped-committed_past : (s : EditorState F) → IsValid s → IsCapped (committed_past s)
    unfolding committed_past
    IsCapped-committed_past s v = ground (arith, length-push_past s.past s.hits)

    pub commit-IsValid :
        (s : EditorState F) (items : List (DrumEvent F)) (patch : Patch F)
        → IsValid s
        → IsReady s items patch
        → IsValid (commit s items patch)
    unfolding commit
    commit-IsValid s items patch v r =
        let step : s.next_ref ≤ s.next_ref + 1 = omega arith in
        record {
          current =
              IsGood-sort_hits patch.next_id s.next_ref (s.next_ref + 1) items (omega arith) r.timed
                r.below r.distinct;
          backward = AllGood-mono _ _ _ _ r.next step _ (AllGood-committed_past s v);
          forward = tt;
          start = OnSome-mono _ _ (IsGood-mono _ _ _ _ r.next step) s.gesture_from v.start;
          start_past =
              OnSome-mono _ _ (AllGood-mono _ _ _ _ r.next step) s.gesture_past v.start_past;
          start_future =
              OnSome-mono _ _ (AllGood-mono _ _ _ _ r.next step) s.gesture_future v.start_future;
          known = Within-sort_hits items patch.selection r.known;
          selected_once = r.selected_once;
          capped = IsCapped-committed_past s v;
          start_capped = v.start_capped;
          measured = v.measured;
        }
