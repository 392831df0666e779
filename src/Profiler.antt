-- ===== src/Profiler.antt =====
-- src/Profiler.h: the profiles of a process. Nothing of the plugin takes one.
use ats_fastcgi.Common.{
  ℕ, ◌≡◌, refl, Bool, true, false, List, [], ◌∷◌, ◌++◌, append_assoc, Bytes, codes, if◌then◌else◌,
}

-- `Profile`
pub record Profile : Type 0 where
  pub start_time : ℕ
  pub end_time : ℕ
  pub thread_id : ℕ
  pub process_id : ℕ
  pub object_id : ℕ
  pub task_name : Bytes
  pub obj_stage : Bytes

-- What the clock, the thread and the process say, in microseconds and as ids
pub record Moment : Type 0 where
  pub now : ℕ
  pub this_thread : ℕ
  pub this_process : ℕ

-- `ComputeStartTime` and `ComputeEndTime`
abbrev pub compute_start_time : Moment → Profile → Profile
compute_start_time m p = record p {
  start_time = m.now;
  thread_id = m.this_thread;
  process_id = m.this_process;
}

abbrev pub compute_end_time : Moment → Profile → Profile
compute_end_time m p = record p { end_time = m.now }

abbrev pub set_task_name : Bytes → Profile → Profile
set_task_name name p = record p { task_name = name }

abbrev pub set_obj_stage : Bytes → Profile → Profile
set_obj_stage stage p = record p { obj_stage = stage }

abbrev pub set_object_id : ℕ → Profile → Profile
set_object_id id p = record p { object_id = id }

-- `Profiler`
pub record Profiler : Type 0 where
  pub profiles : List Profile
  pub record_enabled : Bool

abbrev pub new_profiler : Profiler
new_profiler = record { profiles = []; record_enabled = false }

-- By whether profiles are recorded
abbrev submit_if : Bool → Profile → Profiler → Profiler
submit_if true profile r = record r { profiles = r.profiles ++ (profile ∷ []) }
submit_if false profile r = r

-- `SubmitProfile`
unfoldable pub submit_profile : Profile → Profiler → Profiler
submit_profile profile r = submit_if r.record_enabled profile r

-- `Clear`
abbrev pub clear : Profiler → Profiler
clear r = record r { profiles = [] }

-- `set_record_enabled`
unfoldable pub set_record_enabled : Bool → Profiler → Profiler
set_record_enabled enabled r =
    let r' = record r { record_enabled = enabled } in if enabled then r' else clear r'

-- `ProfileTaker(…)`, where the memory of its profile held `memory`
unfoldable pub profile_taker : Moment → Profile → Bytes → ℕ → Bytes → Profile
profile_taker m memory task_name obj_id phase =
    set_object_id obj_id
      (set_obj_stage phase (set_task_name task_name (compute_start_time m memory)))

-- `endProf`, where its memory held `memory`
abbrev pub end_prof : Moment → Profile → Profile → Profile
end_prof m memory profile =
    set_object_id profile.object_id
      (set_task_name profile.task_name (set_obj_stage (codes "E") (compute_start_time m memory)))

-- `~ProfileTaker`
unfoldable pub release : Moment → Profile → Profile → Profiler → Profiler
unfolding submit_profile
release m memory profile r = submit_profile (end_prof m memory profile) (submit_profile profile r)

-- What a profiler does in its life
pub data Use : Profiler → Type 0 where
  start : Use new_profiler
  submits : {r : Profiler} (p : Profile) → Use r → Use (submit_profile p r)
  clears : {r : Profiler} → Use r → Use (clear r)
  switches : {r : Profiler} (enabled : Bool) → Use r → Use (set_record_enabled enabled r)

submit_if-empty :
    (b : Bool) (p : Profile) (r : Profiler)
    → r.record_enabled ≡ b
    → (r.record_enabled ≡ false → r.profiles ≡ [])
    → (submit_if b p r).record_enabled ≡ false
    → (submit_if b p r).profiles ≡ []
submit_if-empty true p r e empty h = absurd (cc)
submit_if-empty false p r e empty h = empty e

-- A profiler that records nothing holds no profiles.
pub Use-empty : (r : Profiler) → Use r → r.record_enabled ≡ false → r.profiles ≡ []
unfolding submit_profile set_record_enabled
Use-empty _ start h = refl
Use-empty _ (submits {r} p u) h = submit_if-empty r.record_enabled p r refl (Use-empty r u) h
Use-empty _ (clears u) h = refl
Use-empty _ (switches true u) h = absurd (cc)
Use-empty _ (switches false u) h = refl

-- A taker leaves a profiler that records two profiles more, in this order: its own, and one of the same
-- task and object with the stage `E` and the moment of the release.
pub release-pair :
    (m m' : Moment) (memory memory' : Profile) (task phase : Bytes) (id : ℕ) (r : Profiler)
    → r.record_enabled ≡ true
    → (begin end : Profile) × ((release m' memory'
          (profile_taker m memory task id phase)
          r).profiles
        ≡ r.profiles ++ begin ∷ end ∷ [])
      × (begin.task_name ≡ task)
      × (end.task_name ≡ task)
      × (begin.object_id ≡ id)
      × (end.object_id ≡ id)
      × (begin.obj_stage ≡ phase)
      × (end.obj_stage ≡ codes "E")
      × (begin.start_time ≡ m.now)
      × (end.start_time ≡ m'.now)
unfolding release submit_profile profile_taker
release-pair m m' memory memory' task phase id r h =
    let taken = profile_taker m memory task id phase in
    (
      taken,
      end_prof m' memory' taken,
      rw h (append_assoc r.profiles (taken ∷ []) (end_prof m' memory' taken ∷ [])),
      refl,
      refl,
      refl,
      refl,
      refl,
      refl,
      refl,
      refl,
    )
