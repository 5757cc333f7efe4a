-- ===== src/Ups.antt =====
-- wolnut/monitor.py: what the monitor asks upsc for, and what it makes of the answer. The run of the
-- program is a `Run`.
pub mod Failures
use wolnut_webui.Common.{
  ℕ, String, Bool, true, false, not, ◌&&◌, ◌||◌, Option, none, some, List, [], ◌∷◌, ◌==◌, truthy,
  if◌then◌else◌, ◌≡◌, refl,
}
use wolnut_webui.Common.Text.{◌^◌, show, strip, codes, has_part, within}
use wolnut_webui.Common.Dict.{Dict, insert}
use Prim.Native.Char.{code}

abbrev has_char : ℕ → String → Bool
has_char c String.[] = false
has_char c (String.◌∷◌ a s) = code a == c || has_char c s

-- s.split(c, 1), for a text that has the character.
unfoldable pub split_once : ℕ → String → String × String
split_once c String.[] = ("", "")
split_once c (String.◌∷◌ a s) =
    let (k, v) = split_once c s in if code a == c then ("", s) else (String.◌∷◌ a k, v)

-- s.rsplit(c, 1)[-1]
last_part : ℕ → String → String
last_part c String.[] = ""
last_part c (String.◌∷◌ a s) =
    let rest = last_part c s in
    if has_char c s then rest else if code a == c then s else String.◌∷◌ a s

-- p in s
abbrev contains_text : String → String → Bool
contains_text p s = has_part (codes p) (codes s)

-- `_build_ups_target`
unfoldable pub build_ups_target : String → Option ℕ → String
unfolding last_part
build_ups_target ups none = ups
build_ups_target ups (some port) =
    if port == 3493
    then ups
    else if not (has_char b'@' ups)
    then ups
    else if has_char b':' (last_part b'@' ups)
    then ups
    else ups ^ ":" ^ show port

target_test : build_ups_target "ups@10.0.0.1" (some 3500) ≡ "ups@10.0.0.1:3500"
unfolding build_ups_target ◌^◌ show
target_test = refl

-- The characters at which str.splitlines() ends a line; a carriage return before a newline ends none.
is_break : ℕ → Bool
is_break c = within 10 13 c || within 28 30 c || c == 0x85 || c == 0x2028 || c == 0x2029

abbrev starts_with_newline : String → Bool
starts_with_newline String.[] = false
starts_with_newline (String.◌∷◌ a s) = code a == 10

-- The first line, and the lines after it, if its end is not the end of the text.
split_lines : String → String × List String
unfolding is_break
split_lines String.[] = ("", [])
split_lines (String.◌∷◌ a s) =
    let (line, rest) = split_lines s in
    if code a == 13 && starts_with_newline s
    then ("", rest)
    else if is_break (code a)
    then ("", if truthy s then line ∷ rest else [])
    else (String.◌∷◌ a line, rest)

-- s.splitlines()
unfoldable pub splitlines : String → List String
unfolding split_lines
splitlines s = if truthy s then (let (line, rest) = split_lines s in line ∷ rest) else []

lines_test : splitlines "a: 1\r\n\nb\n" ≡ "a: 1" ∷ "" ∷ "b" ∷ []
unfolding splitlines
lines_test = refl

-- `_clean_upsc_error`: its lines, and their join with newlines.
unfoldable pub clean_lines : List String → List String
unfolding has_part
clean_lines [] = []
clean_lines (line ∷ lines) =
    let rest = clean_lines lines in
    if contains_text "Init SSL without certificate database" line
    then rest
    else if truthy (strip line)
    then strip line ∷ rest
    else rest

unfoldable pub join_lines : List String → String
join_lines [] = ""
join_lines (s ∷ []) = s
join_lines (s ∷ t ∷ ts) = s ^ "\n" ^ join_lines (t ∷ ts)

unfoldable pub clean_upsc_error : String → String
unfolding clean_lines join_lines splitlines
clean_upsc_error e = join_lines (clean_lines (splitlines e))

-- How upsc ran: it is not installed; it was gone when it was started, or another exception came, each
-- with its text; it ended with a code that is not 0 and an error text; or it ended well with its output.
pub data Run : Type 0 where
  not_installed : Run
  gone : String → Run
  failed : String → Run
  exited : String → String → Run
  finished : String → Run

-- a or b, for texts
abbrev or_text : String → String → String
or_text s t = if truthy s then s else t

-- target.rsplit("@", 1)[-1].split(":")[0] if "@" in target else target
host_of : String → String
unfolding last_part split_once
host_of target =
    if has_char b'@' target then (split_once b':' (last_part b'@' target)).0 else target

unfoldable pub with_hint : String → String → String
unfolding host_of has_part
with_hint target e =
    if contains_text "Unknown UPS" e
    then e
      ^ " — check NUT server: run `upsc -l "
      ^ host_of target
      ^ "` to list available UPS names and verify nut.ups in config"
    else e

unfoldable pub exit_error : String → String → String → String
unfolding with_hint clean_upsc_error
exit_error target exit_code errors =
    let raw = or_text (strip errors) ("upsc exited with code " ^ exit_code) in
    with_hint target (or_text (clean_upsc_error raw) raw)

-- The loop over the lines of the output.
unfoldable pub parse_lines : List String → Dict String → Dict String
unfolding split_once
parse_lines [] status = status
parse_lines (line ∷ lines) status =
    let (key, value) = split_once b':' line in
    parse_lines lines
      (if has_char b':' line then insert (strip key) (strip value) status else status)

-- `get_ups_status_detailed`: the status and the error, by the run on the target.
unfoldable pub get_ups_status_detailed : String → Run → Dict String × Option String
unfolding exit_error parse_lines splitlines
get_ups_status_detailed target not_installed = (
  [],
  some
      "Failed to get UPS status: [Errno 2] No such file or directory: 'upsc' — nut-client not installed",
)
get_ups_status_detailed target (gone e) =
    ([], some ("Failed to get UPS status: [Errno 2] No such file or directory: 'upsc' (" ^ e ^ ")"))
get_ups_status_detailed target (failed e) = ([], some ("Failed to get UPS status: " ^ e))
get_ups_status_detailed target (exited exit_code errors) =
    ([], some (exit_error target exit_code errors))
get_ups_status_detailed target (finished output) = (parse_lines (splitlines output) [], none)

-- `get_ups_status`, where upsc runs as `run` says on the target that it is given.
unfoldable pub get_ups_status : String → Option ℕ → (String → Run) → Dict String
unfolding build_ups_target get_ups_status_detailed
get_ups_status ups port run =
    let target = build_ups_target ups port in (get_ups_status_detailed target (run target)).0

status_test :
    get_ups_status "ups@host" none (λ target. finished "ups.status: OL CHRG\nbattery.charge: 95\n")
    ≡ ("ups.status", "OL CHRG") ∷ ("battery.charge", "95") ∷ []
unfolding get_ups_status strip insert
status_test = refl
