-- ===== src/Logger/Stack.antt =====
-- `getStackTrace`: the frames that an error's entry gets.
use Prim.Native.Char.{code}
use hyperfleet_sentinel.Base.{
  ℕ, suc, ◌+◌, ◌≤◌, ◌<◌, String, Bool, true, false, Option, none, some, List, [], ◌∷◌, arith, ◌||◌,
  eqb, leb, if◌then◌else◌, ◌+++◌, decimal, length,
}

-- runtime.Frame, as far as it is read
pub record Frame : Type 0 where
  pub function : String
  pub file : String
  pub line : ℕ

abbrev pub max_stack_frames : ℕ
max_stack_frames = 15

starts_with : String → String → Bool
starts_with String.[] s = true
starts_with (String.◌∷◌ c p) String.[] = false
starts_with (String.◌∷◌ c p) (String.◌∷◌ d s) =
    let rest = starts_with p s in if eqb (code c) (code d) then rest else false

-- strings.Contains(s, part)
contains_text : String → String → Bool
unfolding starts_with
contains_text String.[] part = starts_with part ""
contains_text (String.◌∷◌ c s) part =
    let rest = contains_text s part in if starts_with part (String.◌∷◌ c s) then true else rest

has_slash : String → Bool
has_slash String.[] = false
has_slash (String.◌∷◌ c s) = let rest = has_slash s in if eqb (code c) 0x2f then true else rest

-- What follows the last slash, if there is one.
after_last_slash : String → String
unfolding has_slash
after_last_slash String.[] = ""
after_last_slash (String.◌∷◌ c s) =
    let rest = after_last_slash s in if has_slash (String.◌∷◌ c s) then rest else String.◌∷◌ c s

short_frame : Frame → String
unfolding after_last_slash
short_frame frame =
    after_last_slash frame.function
    +++ "() "
    +++ after_last_slash frame.file
    +++ ":"
    +++ decimal frame.line

is_skipped_frame : Frame → Bool
unfolding contains_text
is_skipped_frame frame =
    contains_text frame.function "runtime." || contains_text frame.function "testing."

-- The loop, with the number of frames so far; the list is what `Next` still gives.
stack_frames : ℕ → List Frame → List String
unfolding short_frame is_skipped_frame
stack_frames n [] = []
stack_frames n (frame ∷ frames) =
    let skipped = stack_frames n frames in
    let more = stack_frames (suc n) frames in
    if is_skipped_frame frame
    then skipped
    else short_frame frame ∷ (if leb max_stack_frames (suc n) then [] else more)

-- The frames of the callers, or none when `runtime.Callers` found none. `Next` of no frames gives
-- the zero frame.
unfoldable pub get_stack_trace : Option (List Frame) → List String
unfolding stack_frames
get_stack_trace none = []
get_stack_trace (some []) = short_frame (record { function = ""; file = ""; line = 0 }) ∷ []
get_stack_trace (some (frame ∷ frames)) = stack_frames 0 (frame ∷ frames)

length-stack_frames :
    (n : ℕ) (frames : List Frame)
    → n < max_stack_frames
    → n + length (stack_frames n frames) ≤ max_stack_frames
unfolding stack_frames
length-stack_frames n [] h = omega arith
length-stack_frames n (frame ∷ frames) h =
    ground (arith, length-stack_frames n frames, length-stack_frames (suc n) frames)

pub length-get_stack_trace :
    (frames : Option (List Frame)) → length (get_stack_trace frames) ≤ max_stack_frames
unfolding get_stack_trace
length-get_stack_trace none = omega arith
length-get_stack_trace (some []) = omega arith
length-get_stack_trace (some (frame ∷ frames)) =
    omega (arith, length-stack_frames 0 (frame ∷ frames) (omega arith))
