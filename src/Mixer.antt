-- ===== src/Mixer.antt =====
-- web/src/lib/mix-state.ts: what the mixer remembers between visits. Names of stems are strings that
-- are only compared, so a number stands for each. `stems` has one entry for each name.
pub mod Validity
pub mod Loading
pub mod Reducer
mod Examples
use rehearse_kit.Common.{
  ℕ, Bool, List, Option, [], ◌∷◌, ◌==◌, true, false, none, some, or_else, is_some, ◌&&◌, ◌||◌, not,
  if◌then◌else◌,
}
use rehearse_kit.Drums.Double.{Double, zero_f, one_f, min_f, max_f}

pub record StemMix (F : Type 0) : Type 0 where
  pub position : F
  pub muted : Bool

pub record MixLoop (F : Type 0) : Type 0 where
  pub start : F
  pub end : F

pub record Entry (F : Type 0) : Type 0 where
  pub name : ℕ
  pub mix : StemMix F

pub record MixState (F : Type 0) : Type 0 where
  pub stems : List (Entry F)
  pub solo : Option ℕ
  pub loop : Option (MixLoop F)
  pub loop_enabled : Bool
  pub selected : Option ℕ
  pub master_position : F

-- A state from the server or from local storage, as far as `sanitize` reads it. `none` is a value
-- that is not of the type it asks for; a Boolean is read by its truth.
pub record RawStem (F : Type 0) : Type 0 where
  pub name : ℕ
  pub position : Option F
  pub muted : Bool

pub record RawMix (F : Type 0) : Type 0 where
  pub stems : List (RawStem F)
  pub solo : Option ℕ
  pub loop : Option (MixLoop F)
  pub loop_enabled : Bool
  pub selected : Option ℕ
  pub master_position : Option F

pub data MixAction (F : Type 0) : Type 0 where
  gain : ℕ → F → MixAction F
  mute : ℕ → Bool → MixAction F
  solo : Option ℕ → MixAction F
  set_loop : Option (MixLoop F) → MixAction F
  enable_loop : Bool → MixAction F
  select : Option ℕ → MixAction F
  master : F → MixAction F
  reset : List ℕ → F → MixAction F
  load : Option (RawMix F) → MixAction F

-- `===` on names that may be null, and `includes`.
unfoldable pub same_name : Option ℕ → Option ℕ → Bool
same_name none none = true
same_name (some a) (some b) = a == b
same_name _ _ = false

unfoldable pub includes : List ℕ → ℕ → Bool
includes [] name = false
includes (x ∷ names) name = x == name || includes names name

-- A name that is one of the stems'.
unfoldable pub known_name : List ℕ → Option ℕ → Option ℕ
known_name names none = none
known_name names (some name) = if includes names name then some name else none

-- `===` on Booleans
abbrev pub same_flag : Bool → Bool → Bool
same_flag true b = b
same_flag false b = not b

module _ {F : Type 0} where
  unfoldable pub find_stem : List (Entry F) → ℕ → Option (StemMix F)
  find_stem [] name = none
  find_stem (e ∷ stems) name = if e.name == name then some e.mix else find_stem stems name

  -- `stems[name] = mix`
  unfoldable pub put : List (Entry F) → ℕ → StemMix F → List (Entry F)
  put [] name mix = record { name = name; mix = mix } ∷ []
  put (e ∷ stems) name mix =
      let rest = put stems name mix in
      if e.name == name then record { name = name; mix = mix } ∷ stems else e ∷ rest

  unfoldable pub put_all : List (Entry F) → List ℕ → F → List (Entry F)
  put_all stems [] unity = stems
  put_all stems (name ∷ names) unity =
      put_all (put stems name (record { position = unity; muted = false })) names unity

  unfoldable pub initial_mix : List ℕ → F → MixState F
  unfolding put_all
  initial_mix names unity = record {
    stems = put_all [] names unity;
    solo = none;
    loop = none;
    loop_enabled = false;
    selected = none;
    master_position = unity;
  }

  unfoldable pub find_raw : List (RawStem F) → ℕ → Option (RawStem F)
  find_raw [] name = none
  find_raw (r ∷ raws) name = if r.name == name then some r else find_raw raws name

  -- The names, and the position of the first stem.
  abbrev pub names_of : List (Entry F) → List ℕ
  names_of [] = []
  names_of (e ∷ stems) = e.name ∷ names_of stems

  abbrev pub first_position : List (Entry F) → F → F
  first_position [] unity = unity
  first_position (e ∷ stems) unity = e.mix.position

  unfoldable pub is_silenced : MixState F → ℕ → Bool
  is_silenced s name = is_some s.solo && not (same_name s.solo (some name))

module _ {F : Type 0} ⦃d : Double F⦄ where
  unfoldable pub clamp_01 : F → F
  clamp_01 x = if d.finite x then max_f zero_f (min_f one_f x) else zero_f

  -- The loop of `sanitize` over the names.
  unfoldable pub take_stem : List (Entry F) → ℕ → F → Option (RawStem F) → List (Entry F)
  take_stem stems name unity none = stems
  take_stem stems name unity (some r) = put stems name (record {
    position = elim r.position [ none ↦ unity | some p ↦ clamp_01 p ];
    muted = r.muted;
  })

  unfoldable pub take_stems : List (Entry F) → List (RawStem F) → List ℕ → F → List (Entry F)
  take_stems stems raws [] unity = stems
  take_stems stems raws (name ∷ names) unity =
      take_stems (take_stem stems name unity (find_raw raws name)) raws names unity

  unfoldable pub take_loop : Option (MixLoop F) → Option (MixLoop F)
  take_loop none = none
  take_loop (some l) =
      if d.lt l.start l.end
      then some (record { start = max_f zero_f l.start; end = l.end })
      else none

  unfoldable pub sanitize : Option (RawMix F) → List ℕ → F → MixState F
  sanitize none names unity = initial_mix names unity
  sanitize (some r) names unity = record {
    stems = take_stems (put_all [] names unity) r.stems names unity;
    solo = known_name names r.solo;
    loop = take_loop r.loop;
    loop_enabled = r.loop_enabled && is_some (take_loop r.loop);
    selected = known_name names r.selected;
    master_position = elim r.master_position [ none ↦ unity | some p ↦ clamp_01 p ];
  }

  unfoldable pub do_gain : MixState F → ℕ → F → Option (StemMix F) → MixState F
  do_gain s name x none = s
  do_gain s name x (some cur) =
      if d.same cur.position (clamp_01 x)
      then s
      else record s { stems = put s.stems name (record cur { position = clamp_01 x }) }

  unfoldable pub do_mute : MixState F → ℕ → Bool → Option (StemMix F) → MixState F
  do_mute s name muted none = s
  do_mute s name muted (some cur) =
      if same_flag cur.muted muted
      then s
      else record s { stems = put s.stems name (record cur { muted = muted }) }

  -- A name that is not null and has no stem.
  abbrev pub is_unknown : List (Entry F) → Option ℕ → Bool
  is_unknown stems none = false
  is_unknown stems (some name) = not (is_some (find_stem stems name))

  unfoldable pub do_solo : MixState F → Option ℕ → MixState F
  do_solo s name =
      if same_name s.solo name
      then s
      else (if is_unknown s.stems name then s else record s { solo = name })

  -- `end <= start`
  abbrev pub is_empty : Option (MixLoop F) → Bool
  is_empty none = false
  is_empty (some l) = d.lt l.end l.start || d.same l.end l.start

  unfoldable pub do_set_loop : MixState F → Option (MixLoop F) → MixState F
  do_set_loop s loop =
      if is_empty loop
      then s
      else record s { loop = loop; loop_enabled = is_some loop && s.loop_enabled }

  unfoldable pub do_enable_loop : MixState F → Bool → MixState F
  do_enable_loop s enabled =
      if not (is_some s.loop) && enabled
      then s
      else (if same_flag s.loop_enabled enabled then s else record s { loop_enabled = enabled })

  unfoldable pub mix_reduce : MixState F → MixAction F → MixState F
  mix_reduce s (gain name x) = do_gain s name x (find_stem s.stems name)
  mix_reduce s (mute name muted) = do_mute s name muted (find_stem s.stems name)
  mix_reduce s (solo name) = do_solo s name
  mix_reduce s (set_loop loop) = do_set_loop s loop
  mix_reduce s (enable_loop enabled) = do_enable_loop s enabled
  mix_reduce s (select name) = if same_name s.selected name then s else record s { selected = name }
  mix_reduce s (master x) = record s { master_position = clamp_01 x }
  mix_reduce s (reset names unity) = initial_mix names unity
  mix_reduce s (load raw) = sanitize raw (names_of s.stems) (first_position s.stems one_f)
