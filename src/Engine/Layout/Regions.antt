-- ===== src/Engine/Layout/Regions.antt =====
-- The rings lie side by side behind the control block and the meters.
use native.Mathlib.Nat.{mul-le-mul_right}
use rehearse_kit.Common.{ap₂, get_elem?, some, ◌<◌}
use rehearse_kit.Common.{
  ℕ, List, [], ◌++◌, Result, ok, err, ltb, Bool-cases, inl, inr, suc, zero, ◌*◌, ◌+◌, ◌∷◌, ◌≡◌, ap,
  arith, length, refl, subst, sym, true, ◌==◌, ◌||◌, ◌∙◌, ◌≤◌, ok_inj,
}
use rehearse_kit.Engine.Layout.{
  StemLayout, RingLayout, LayoutError, channel_offsets, lay_out, with_stem, finish,
  create_ring_layout, ctrl_bytes, meter_bytes, max_stems, max_channels, is_power_of_two,
}

-- Every ring of a layout, in order.
abbrev pub all_offsets : List StemLayout → List ℕ
all_offsets [] = []
all_offsets (st ∷ stems) = st.channel_byte_offsets ++ all_offsets stems

abbrev pub counts_of : List StemLayout → List ℕ
counts_of [] = []
counts_of (st ∷ stems) = st.channels ∷ counts_of stems

abbrev pub lengths_of : List StemLayout → List ℕ
lengths_of [] = []
lengths_of (st ∷ stems) = length st.channel_byte_offsets ∷ lengths_of stems

abbrev pub sum : List ℕ → ℕ
sum [] = 0
sum (n ∷ ns) = n + sum ns

-- The places of `n` rings of `bytes` bytes, side by side from `offset` on.
abbrev pub places : ℕ → ℕ → ℕ → List ℕ
places bytes offset zero = []
places bytes offset (suc n) = offset ∷ places bytes (offset + bytes) n

-- The place with the number i is i rings behind the first, and its ring ends inside the region.
places-get :
    (bytes offset n i : ℕ) → i < n → get_elem? (places bytes offset n) i ≡ some (offset + i * bytes)
places-get bytes offset zero i h = absurd (omega arith)
places-get bytes offset (suc n) zero h = ap some (omega arith)
places-get bytes offset (suc n) (suc i) h =
    places-get bytes (offset + bytes) n i (omega (arith, h)) ∙ ap some (grind arith)

length-places : (bytes offset n : ℕ) → length (places bytes offset n) ≡ n
length-places bytes offset zero = refl
length-places bytes offset (suc n) = ap suc (length-places bytes (offset + bytes) n)

places-append :
    (bytes offset n m : ℕ)
    → places bytes offset n ++ places bytes (offset + n * bytes) m ≡ places bytes offset (n + m)
places-append bytes offset zero m =
    let here : offset + 0 * bytes ≡ offset = omega arith in
    let all : 0 + m ≡ m = omega arith in
    ap (λ o. places bytes o m) here ∙ ap (places bytes offset) (sym all)
places-append bytes offset (suc n) m =
    let next : offset + suc n * bytes ≡ offset + bytes + n * bytes = grind arith in
    let all : suc n + m ≡ suc (n + m) = omega arith in
    ap (λ o. offset ∷ (places bytes (offset + bytes) n ++ places bytes o m)) next
    ∙ (ap (λ l. offset ∷ l) (places-append bytes (offset + bytes) n m)
        ∙ ap (places bytes offset) (sym all))

channel_offsets-places :
    (frames offset n : ℕ)
    → ((channel_offsets frames offset n).0 ≡ places (frames * 4) offset n)
      × ((channel_offsets frames offset n).1 ≡ offset + n * (frames * 4))
unfolding channel_offsets
channel_offsets-places frames offset zero = (refl, omega arith)
channel_offsets-places frames offset (suc n) =
    let (l, e) = channel_offsets-places frames (offset + frames * 4) n in
    (ap (λ r. offset ∷ r) l, e ∙ grind arith)

-- What was laid out from `offset` on: `rings` rings side by side, up to the end.
record IsLaidOut (frames offset : ℕ) (counts : List ℕ) (r : List StemLayout × ℕ) : Type 0 where
  side_by_side : all_offsets r.0 ≡ places (frames * 4) offset (sum counts)
  to_end : r.1 ≡ offset + sum counts * (frames * 4)
  same_counts : counts_of r.0 ≡ counts
  all_there : lengths_of r.0 ≡ counts

cons-IsLaidOut :
    (frames offset n : ℕ) (counts : List ℕ) (b : Result LayoutError (List StemLayout × ℕ))
    → ((r : List StemLayout × ℕ)
        → b ≡ ok r
        → IsLaidOut frames (channel_offsets frames offset n).1 counts r)
    → (r : List StemLayout × ℕ) → with_stem n (channel_offsets frames offset n).0 b ≡ ok r
    → IsLaidOut frames offset (n ∷ counts) r
cons-IsLaidOut frames offset n counts (err e) ih r h = absurd (ground arith)
cons-IsLaidOut frames offset n counts (ok (stems, end)) ih r h =
    let v = ih (stems, end) refl in
    let (l, e) = channel_offsets-places frames offset n in
    subst (IsLaidOut frames offset (n ∷ counts)) (ok_inj h) (record {
      side_by_side =
          ap₂ (λ a b. a ++ b) l (v.side_by_side ∙ ap (λ o. places (frames * 4) o (sum counts)) e)
          ∙ places-append (frames * 4) offset n (sum counts);
      to_end = v.to_end ∙ ap (λ o. o + sum counts * (frames * 4)) e ∙ grind arith;
      same_counts = ap (λ l. n ∷ l) v.same_counts;
      all_there =
          ap₂ (λ a b. a ∷ b) (ap length l ∙ length-places (frames * 4) offset n) v.all_there;
    })

lay_out_lem :
    (frames : ℕ) (counts : List ℕ) (offset : ℕ) (r : List StemLayout × ℕ)
    → lay_out frames offset counts ≡ ok r
    → IsLaidOut frames offset counts r
unfolding lay_out
lay_out_lem frames [] offset r h =
    let ends : offset ≡ offset + 0 * (frames * 4) = omega arith in
    subst (IsLaidOut frames offset []) (ok_inj h)
      (record { side_by_side = refl; to_end = ends; same_counts = refl; all_there = refl })
lay_out_lem frames (n ∷ counts) offset r h = elim (Bool-cases (ltb n 1 || ltb max_channels n)) [
  | inl e ↦ absurd (ground arith)
  | inr e ↦
      let next = (channel_offsets frames offset n).1 in
      cons-IsLaidOut frames offset n counts (lay_out frames next counts)
        (λ q k. lay_out_lem frames counts next q k) r (rw e at h)
]

-- What the rings of a layout are: ring `i`, in the order of the stems and their channels, takes
-- 4 bytes for each frame, `i` rings behind the control block and the meters, inside the total.
pub record IsLayout (counts : List ℕ) (frames : ℕ) (l : RingLayout) : Type 0 where
  pub rings : length (all_offsets l.stems) ≡ sum counts
  pub places_of :
      (i : ℕ)
      → i < sum counts
      → (get_elem? (all_offsets l.stems) i ≡ some (ctrl_bytes + meter_bytes + i * (frames * 4)))
        × (ctrl_bytes + meter_bytes + i * (frames * 4) + frames * 4 ≤ l.total_bytes)
  pub total : l.total_bytes ≡ ctrl_bytes + meter_bytes + sum counts * (frames * 4)
  pub same_counts : counts_of l.stems ≡ counts
  pub all_there : lengths_of l.stems ≡ counts
  pub power : is_power_of_two frames ≡ true
  pub few : length counts ≤ max_stems

inside : (base bytes i n : ℕ) → i < n → base + i * bytes + bytes ≤ base + n * bytes
inside base bytes i n h =
    let grown : suc i * bytes ≤ n * bytes = mul-le-mul_right bytes h in
    let apart : suc i * bytes ≡ i * bytes + bytes = grind arith in omega (arith, grown, apart)

-- Where createRingLayout returns a layout, it has one ring for each channel asked for, stem by
-- stem; ring number i starts i rings behind the control block and the meters and ends, 4 bytes
-- for each frame later, inside the total, which is those blocks and all the rings; the ring size
-- passed the test for a power of two and there are at most 8 stems.
pub create_ring_layout_lem :
    (counts : List ℕ) (frames : ℕ) (l : RingLayout)
    → create_ring_layout counts frames ≡ ok l
    → IsLayout counts frames l
unfolding create_ring_layout
create_ring_layout_lem counts frames l h = elim (Bool-cases (is_power_of_two frames)) [
  | inr e ↦ absurd (ground arith)
  | inl e ↦ elim (Bool-cases ((length counts == 0) || ltb max_stems (length counts))) [
    | inl f ↦ absurd (ground arith)
    | inr f ↦
        go (lay_out frames (ctrl_bytes + meter_bytes) counts) refl (rw (e, f) at h) e (ground arith)
  ]
]
  where
    go :
        (b : Result LayoutError (List StemLayout × ℕ))
        → lay_out frames (ctrl_bytes + meter_bytes) counts ≡ b
        → finish frames b ≡ ok l
        → is_power_of_two frames ≡ true
        → length counts ≤ max_stems
        → IsLayout counts frames l
    go (err x) q k e f = absurd (ground arith)
    go (ok (stems, end)) q k e f =
        let base = ctrl_bytes + meter_bytes in
        let v = lay_out_lem frames counts base (stems, end) q in
        subst (IsLayout counts frames) (ok_inj k) (record {
          rings = ap length v.side_by_side ∙ length-places (frames * 4) base (sum counts);
          places_of = λ i h. (
            ap (λ o. get_elem? o i) v.side_by_side ∙ places-get (frames * 4) base (sum counts) i h,
            subst (λ n. base + i * (frames * 4) + frames * 4 ≤ n) (sym v.to_end)
                (inside base (frames * 4) i (sum counts) h),
          );
          total = v.to_end;
          same_counts = v.same_counts;
          all_there = v.all_there;
          power = e;
          few = f;
        })
