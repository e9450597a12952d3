-- ===== src/Drums/Editor/UndoRedo.antt =====
-- What undo and redo give back.
use rehearse_kit.Common.{
  List, [], ap, arith, drop, false, if◌then◌else◌, leb, length, length-drop, refl, some, ◌++◌, ◌+◌,
  ◌-◌, ◌<◌, ◌∙◌, ◌∷◌, ◌≡◌, ◌≤◌, sym,
}
use rehearse_kit.Drums.Double.{Double}
use rehearse_kit.Drums.Hits.{last_of, but_last}
use rehearse_kit.Drums.Editor.{HitArray, EditorState, history_limit, push_past, DrumEvent}
use rehearse_kit.Drums.Editor.Commit.{Patch, commit, committed_past}
use rehearse_kit.Drums.Editor.History.{do_undo, do_redo, undo_from, undo_to, redo_from, redo_to}
use rehearse_kit.Drums.Editor.KeepHistory.{length-but_last}

module _ {A : Type 0} where
  pub last_of-append : (xs : List A) (x : A) → last_of (xs ++ (x ∷ [])) ≡ some x
  unfolding last_of
  last_of-append [] x = refl
  last_of-append (y ∷ []) x = refl
  last_of-append (y ∷ z ∷ xs) x = last_of-append (z ∷ xs) x

  pub but_last-append : (xs : List A) (x : A) → but_last (xs ++ (x ∷ [])) ≡ xs
  unfolding but_last
  but_last-append [] x = refl
  but_last-append (y ∷ []) x = refl
  but_last-append (y ∷ z ∷ xs) x = ap (y ∷◌) (but_last-append (z ∷ xs) x)

  but_last-last_of : (xs : List A) (x : A) → last_of xs ≡ some x → but_last xs ++ (x ∷ []) ≡ xs
  unfolding last_of but_last
  but_last-last_of [] x h = cc
  but_last-last_of (y ∷ []) x h = cc
  but_last-last_of (y ∷ z ∷ xs) x h = ap (y ∷◌) (but_last-last_of (z ∷ xs) x h)

module _ {F : Type 0} where
  -- What is in front of the array that a push adds.
  kept : List (HitArray F) → List (HitArray F)
  kept past =
      if leb history_limit (length past) then drop (length past - history_limit + 1) past else past

  push_past-kept :
      (past : List (HitArray F)) (a : HitArray F) → push_past past a ≡ kept past ++ (a ∷ [])
  unfolding push_past kept
  push_past-kept past a = refl

  length-kept : (past : List (HitArray F)) → length (kept past) < history_limit
  unfolding kept
  length-kept past = ground (arith, length-drop (length past - history_limit + 1) past)

  pub push_past_short :
      (past : List (HitArray F)) (a : HitArray F)
      → length past < history_limit
      → push_past past a ≡ past ++ (a ∷ [])
  unfolding push_past
  push_past_short past a h = ground arith

  pub last_of-push_past :
      (past : List (HitArray F)) (a : HitArray F) → last_of (push_past past a) ≡ some a
  last_of-push_past past a = rw push_past-kept (last_of-append (kept past) a)

  -- Undone and redone, an entry is where it was.
  pub push_past-but_last :
      (past : List (HitArray F)) (a : HitArray F)
      → last_of past ≡ some a
      → length past ≤ history_limit
      → push_past (but_last past) a ≡ past
  push_past-but_last past a h k =
      push_past_short (but_last past) a (omega (arith, length-but_last past, some_entry past h))
      ∙ but_last-last_of past a h
    where
      some_entry : (l : List (HitArray F)) → last_of l ≡ some a → 0 < length l
      some_entry [] e = unfold last_of in cc
      some_entry (x ∷ l) e = omega arith

module _ {F : Type 0} ⦃d : Double F⦄ (s : EditorState F) (out : s.in_gesture ≡ false) where
  undo_eq : (hits : HitArray F) → last_of s.past ≡ some hits → do_undo s ≡ undo_to s hits
  unfolding do_undo undo_from
  undo_eq hits e = rw (out, e)

  redo_eq :
      (hits : HitArray F) (rest : List (HitArray F))
      → s.future ≡ hits ∷ rest
      → do_redo s ≡ redo_to s hits rest
  unfolding do_redo redo_from
  redo_eq hits rest e = rw (out, e)

module _ {F : Type 0} ⦃d : Double F⦄ where
  -- The hits and the whole history are as they were.
  pub record SameHistory (s t : EditorState F) : Type 0 where
    pub hits : t.hits ≡ s.hits
    pub past : t.past ≡ s.past
    pub future : t.future ≡ s.future

  redo_undo_to :
      (s : EditorState F) (a : HitArray F)
      → s.in_gesture ≡ false
      → do_redo (undo_to s a) ≡ redo_to (undo_to s a) s.hits s.future
  unfolding do_redo redo_from undo_to
  redo_undo_to s a out = rw out

  redo_to-undo_to :
      (s : EditorState F) (a : HitArray F)
      → last_of s.past ≡ some a
      → length s.past ≤ history_limit
      → SameHistory s (redo_to (undo_to s a) s.hits s.future)
  unfolding redo_to undo_to
  redo_to-undo_to s a e k = record {
    hits = refl;
    past = push_past-but_last s.past a e k;
    future = refl;
  }

  undo_redo_to :
      (s : EditorState F) (a : HitArray F) (rest : List (HitArray F))
      → s.in_gesture ≡ false
      → do_undo (redo_to s a rest) ≡ undo_to (redo_to s a rest) s.hits
  unfolding do_undo undo_from redo_to
  undo_redo_to s a rest out = rw (out, last_of-push_past s.past s.hits)

  undo_to-redo_to :
      (s : EditorState F) (a : HitArray F) (rest : List (HitArray F))
      → s.future ≡ a ∷ rest
      → length s.past < history_limit
      → SameHistory s (undo_to (redo_to s a rest) s.hits)
  unfolding redo_to undo_to
  undo_to-redo_to s a rest e k = record {
    hits = refl;
    past = rw (push_past_short s.past s.hits k) (but_last-append s.past s.hits);
    future = sym e;
  }

  undo_committed :
      (s : EditorState F) (items : List (DrumEvent F)) (patch : Patch F)
      → s.in_gesture ≡ false
      → do_undo (commit s items patch) ≡ undo_to (commit s items patch) s.hits
  unfolding do_undo undo_from commit committed_past
  undo_committed s items patch out = rw (out, last_of-push_past s.past s.hits)

  but_last-committed :
      (s : EditorState F)
      → s.in_gesture ≡ false
      → length s.past < history_limit
      → but_last (committed_past s) ≡ s.past
  unfolding committed_past
  but_last-committed s out k =
      rw (out, push_past_short s.past s.hits k) (but_last-append s.past s.hits)

  -- Outside a gesture, with something to undo and at most 100 entries of history, undo and then
  -- redo gives back hits, past and future.
  pub redo-undo :
      (s : EditorState F) (a : HitArray F)
      → s.in_gesture ≡ false
      → last_of s.past ≡ some a
      → length s.past ≤ history_limit
      → SameHistory s (do_redo (do_undo s))
  redo-undo s a out e k =
      let redone : do_redo (undo_to s a) ≡ redo_to (undo_to s a) s.hits s.future =
        redo_undo_to s a out in
      rw (undo_eq s out a e, redone) (redo_to-undo_to s a e k)

  -- Outside a gesture, with something to redo and a history that is not full, redo and then undo
  -- gives back hits, past and future.
  pub undo-redo :
      (s : EditorState F) (a : HitArray F) (rest : List (HitArray F))
      → s.in_gesture ≡ false
      → s.future ≡ a ∷ rest
      → length s.past < history_limit
      → SameHistory s (do_undo (do_redo s))
  undo-redo s a rest out e k =
      rw (redo_eq s out a rest e, undo_redo_to s a rest out) (undo_to-redo_to s a rest e k)

  -- Outside a gesture, undo after a commit gives back the hits of before and has the committed
  -- hits as the only thing to redo, redo gives the committed hits again, and while the history
  -- is not full undo gives back the past.
  pub undo-commit :
      (s : EditorState F) (items : List (DrumEvent F)) (patch : Patch F)
      → s.in_gesture ≡ false
      → ((do_undo (commit s items patch)).hits ≡ s.hits)
        × ((do_undo (commit s items patch)).future ≡ (commit s items patch).hits ∷ [])
        × ((do_redo (do_undo (commit s items patch))).hits ≡ (commit s items patch).hits)
        × (length s.past < history_limit → (do_undo (commit s items patch)).past ≡ s.past)
  unfolding commit
  undo-commit s items patch out =
      rw (undo_committed s items patch out, redo_undo_to (commit s items patch) s.hits out)
        (unfold undo_to redo_to in (refl, refl, refl, λ k. but_last-committed s out k))
