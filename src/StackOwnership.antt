-- ===== src/StackOwnership.antt =====
-- src/capture/stack-ownership.ts: which frames of a stack belong to the application.
mod Tests
use Prim.Native.String.{String}
use errorcore.Common.{
  ℕ, zero, suc, ◌+◌, ◌-◌, ◌≡◌, refl, sym, ◌∙◌, ap, inl, inr, Bool, true, false, not, ◌||◌, Option,
  none, some, List, [], ◌∷◌, ltb, ◌==◌, if◌then◌else◌, length, length-keep_if-le, keep_if,
  Bool-cases, arith,
}

pub data FrameOwnershipKind : Type 0 where
  app external : FrameOwnershipKind

pub record ParsedStackFrame : Type 0 where
  pub function_name : String
  pub file_path : String
  pub line_number : ℕ
  pub column_number : ℕ

pub record StackBoundaryFrame : Type 0 where
  pub function_name : String
  pub file_path : String
  pub line_number : ℕ
  pub column_number : ℕ

pub record StackOwnershipMetadata : Type 0 where
  pub origin : FrameOwnershipKind
  pub package_name : Option String
  pub error_type : String
  pub app_boundary_frame : Option StackBoundaryFrame
  pub external_frames_collapsed : Bool
  pub external_frame_count : ℕ
  pub app_frame_count : ℕ

abbrev pub to_boundary_frame : ParsedStackFrame → StackBoundaryFrame
to_boundary_frame f = record {
  function_name = f.function_name;
  file_path = f.file_path;
  line_number = f.line_number;
  column_number = f.column_number;
}

abbrev pub is_app : FrameOwnershipKind → Bool
is_app app = true
is_app external = false

-- `find`.
abbrev pub find_frame : (ParsedStackFrame → Bool) → List ParsedStackFrame → Option ParsedStackFrame
find_frame p [] = none
find_frame p (f ∷ fs) = if p f then some f else find_frame p fs

abbrev pub boundary_of : Option ParsedStackFrame → Option StackBoundaryFrame
boundary_of none = none
boundary_of (some f) = some (to_boundary_frame f)

abbrev pub head_of : List ParsedStackFrame → Option ParsedStackFrame
head_of [] = none
head_of (f ∷ fs) = some f

find_frame-head :
    (p : ParsedStackFrame → Bool) (fs : List ParsedStackFrame)
    → find_frame p fs ≡ head_of (keep_if p fs)
find_frame-head p [] = refl
find_frame-head p (f ∷ fs) = elim (Bool-cases (p f)) [
  | inl e ↦ rw e refl
  | inr e ↦ rw e (find_frame-head p fs)
]

-- The methods of strings that the code calls: replacing every backslash by a slash, `startsWith` and
-- `includes`.
pub record StringMethods : Type 0 where
  pub replace_backslashes : String → String
  pub starts_with : String → String → Bool
  pub includes : String → String → Bool

abbrev pub classify_frame_path : StringMethods → String → FrameOwnershipKind
classify_frame_path m file_path =
    let normalized = m.replace_backslashes file_path in
    if m.starts_with normalized "node:"
      || (m.includes normalized "node:internal" || m.includes normalized "/node_modules/")
    then external
    else app

-- `extractNodeModulesPackageName` comes as `package_of`.
module _ (m : StringMethods) (package_of : String → Option String) where
  abbrev pub classify : String → FrameOwnershipKind
  classify file_path = classify_frame_path m file_path

  abbrev pub is_app_frame : ParsedStackFrame → Bool
  is_app_frame f = is_app (classify f.file_path)

  -- The loop of `reduce`.
  unfoldable pub count_app : ℕ → List ParsedStackFrame → ℕ
  count_app count [] = count
  count_app count (f ∷ fs) = count_app (count + (if is_app_frame f then 1 else 0)) fs

  abbrev pub first_kind : List ParsedStackFrame → FrameOwnershipKind
  first_kind [] = app
  first_kind (f ∷ fs) = classify f.file_path

  abbrev pub package_of_frame : Option ParsedStackFrame → Option String
  package_of_frame none = none
  package_of_frame (some f) = package_of f.file_path

  -- From the frames that `parseStackFrames` reads off the stack.
  unfoldable pub analyze_stack_ownership : List ParsedStackFrame → String → StackOwnershipMetadata
  unfolding count_app
  analyze_stack_ownership frames error_type = record {
    origin = first_kind frames;
    package_name = package_of_frame (find_frame (λ f. not (is_app_frame f)) frames);
    error_type = error_type;
    app_boundary_frame = boundary_of (find_frame is_app_frame frames);
    external_frames_collapsed = ltb 0 (length frames - count_app 0 frames);
    external_frame_count = length frames - count_app 0 frames;
    app_frame_count = count_app 0 frames;
  }

  count_app-length :
      (n : ℕ) (fs : List ParsedStackFrame) → count_app n fs ≡ n + length (keep_if is_app_frame fs)
  unfolding count_app
  count_app-length n [] = omega arith
  count_app-length n (f ∷ fs) = elim (Bool-cases (is_app_frame f)) [
    | inl e ↦ rw e (omega (arith, count_app-length (n + 1) fs))
    | inr e ↦ rw e (omega (arith, count_app-length (n + 0) fs))
  ]

  -- The marks of a path that is not of the application, in its form with slashes.
  abbrev pub marks : List (String → Bool)
  marks =
      (λ p. m.includes p "/node_modules/")
      ∷ (λ p. m.includes p "node:internal")
      ∷ (λ p. m.starts_with p "node:")
      ∷ []

  abbrev pub bears_any : List (String → Bool) → String → Bool
  bears_any [] path = false
  bears_any (mark ∷ rest) path = if mark path then true else bears_any rest path

  abbrev pub is_marked : ParsedStackFrame → Bool
  is_marked f = bears_any marks (m.replace_backslashes f.file_path)

  abbrev pub own_frames : List ParsedStackFrame → List ParsedStackFrame
  own_frames fs = keep_if (λ f. not (is_marked f)) fs

  abbrev pub marked_frames : List ParsedStackFrame → List ParsedStackFrame
  marked_frames fs = keep_if is_marked fs

  is_app_frame-is_marked : (f : ParsedStackFrame) → is_app_frame f ≡ not (is_marked f)
  is_app_frame-is_marked f =
      let path = m.replace_backslashes f.file_path in
      by_tests (m.starts_with path "node:") (m.includes path "node:internal")
        (m.includes path "/node_modules/")
    where
      by_tests :
          (a b c : Bool)
          → is_app (if a || (b || c) then external else app)
            ≡ not (if c then true else (if b then true else (if a then true else false)))
      by_tests a b c = ground arith

  not-is_app_frame : (f : ParsedStackFrame) → not (is_app_frame f) ≡ is_marked f
  not-is_app_frame f = rw (is_app_frame-is_marked f) (not_not (is_marked f))
    where
      not_not : (b : Bool) → not (not b) ≡ b
      not_not b = ground arith

  partition :
      (fs : List ParsedStackFrame) → length (own_frames fs) + length (marked_frames fs) ≡ length fs
  partition [] = omega arith
  partition (f ∷ fs) = elim (Bool-cases (is_marked f)) [
    | inl e ↦ rw e (omega (arith, partition fs))
    | inr e ↦ rw e (omega (arith, partition fs))
  ]

  own : (fs : List ParsedStackFrame) → keep_if is_app_frame fs ≡ own_frames fs
  own fs = ap (λ p. keep_if p fs) (λ i f. is_app_frame-is_marked f i)

  marked : (fs : List ParsedStackFrame) → keep_if (λ f. not (is_app_frame f)) fs ≡ marked_frames fs
  marked fs = ap (λ p. keep_if p fs) (λ i f. not-is_app_frame f i)

  -- The metadata of any frames: a frame counts as external if its path, with slashes, starts with
  -- node: or holds node:internal or /node_modules/, and as one of the application otherwise; frames
  -- are reported as collapsed if there is an external one; the boundary frame is the first of the
  -- application, and the package that of the first external one.
  pub analyze_stack_ownership-marks :
      (frames : List ParsedStackFrame) (error_type : String)
      → let w = analyze_stack_ownership frames error_type in
        (w.app_frame_count ≡ length (own_frames frames))
        × ((w.external_frame_count ≡ length (marked_frames frames))
            × ((w.external_frames_collapsed ≡ ltb 0 (length (marked_frames frames)))
                × ((w.app_boundary_frame ≡ boundary_of (head_of (own_frames frames)))
                    × (w.package_name ≡ package_of_frame (head_of (marked_frames frames))))))
  unfolding analyze_stack_ownership
  analyze_stack_ownership-marks frames error_type =
      let counted : count_app 0 frames ≡ length (own_frames frames) =
        omega (arith, count_app-length 0 frames, ap length (own frames)) in
      let others : length frames - count_app 0 frames ≡ length (marked_frames frames) =
        omega (arith, counted, partition frames) in
      (
        counted,
        (
          others,
          (
            ap (ltb 0) others,
            (
              ap boundary_of (find_frame-head is_app_frame frames ∙ ap head_of (own frames)),
              ap package_of_frame
                  (find_frame-head (λ f. not (is_app_frame f)) frames ∙ ap head_of (marked frames)),
            ),
          ),
        ),
      )
