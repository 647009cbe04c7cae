-- ===== src/StackOwnership/Tests.antt =====
-- A run of src/capture/stack-ownership.ts on a small stack.
use Prim.Native.String.{String}
use errorcore.Common.{◌≡◌, Option, none, some, List, [], ◌∷◌, length, ltb, if◌then◌else◌, str_eq}
use errorcore.StackOwnership.{
  StringMethods, ParsedStackFrame, analyze_stack_ownership, analyze_stack_ownership-marks,
  StackOwnershipMetadata, own_frames, marked_frames, boundary_of, head_of, package_of_frame,
}

abbrev methods : StringMethods
methods = record {
  replace_backslashes = λ s. s;
  starts_with = λ s t. str_eq s "node:net";
  includes = λ s t. str_eq s "/node_modules/pg.js";
}

abbrev package_of : String → Option String
package_of path = if str_eq path "/node_modules/pg.js" then some "pg" else none

abbrev frame : String → ParsedStackFrame
frame path = record { function_name = "f"; file_path = path; line_number = 1; column_number = 2 }

abbrev stack : List ParsedStackFrame
stack = frame "/node_modules/pg.js" ∷ frame "app.js" ∷ frame "node:net" ∷ []

abbrev metadata : StackOwnershipMetadata
metadata = analyze_stack_ownership methods package_of stack "Error"

analyze_stack_ownership-marks_example :
    (metadata.app_frame_count ≡ length (own_frames methods package_of stack))
    × ((metadata.external_frame_count ≡ length (marked_frames methods package_of stack))
        × ((metadata.external_frames_collapsed
              ≡ ltb 0 (length (marked_frames methods package_of stack)))
            × ((metadata.app_boundary_frame
                  ≡ boundary_of (head_of (own_frames methods package_of stack)))
                × (metadata.package_name
                    ≡ package_of_frame methods package_of
                        (head_of (marked_frames methods package_of stack))))))
analyze_stack_ownership-marks_example =
    analyze_stack_ownership-marks methods package_of stack "Error"
