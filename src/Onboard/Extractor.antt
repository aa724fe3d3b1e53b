-- ===== src/Onboard/Extractor.antt =====
-- internal/onboard/extractor.go: the dependencies that a language model finds in the files.
use changelogue.Prelude.{
  Bool, false, ◌&&◌, not, Option, none, some, List, [], ◌∷◌, ◌++◌, Bytes, bytes, ltb, ◌==◌,
  if◌then◌else◌, is_empty, same, length,
}
use changelogue.Exec.{Result, ok, err, external}
use changelogue.Models.{ScannedDependency}
use changelogue.Text.{has_prefix, split, trim_space}
use changelogue.Http.{Answer, body_or_error}
use changelogue.Onboard.Scanner.{DependencyFile}

-- The parts of an OpenAI answer that the code reads; `failure` says that the answer holds an error.
pub record OutputItem : Type 0 where
  pub kind : Bytes
  -- the type and the text of each content
  pub content : List (Bytes × Bytes)

pub record OpenaiResponse : Type 0 where
  pub output : List OutputItem
  pub failure : Bool

-- The model that is configured, as a function of the prompt: Gemini's candidates with the texts of
-- their parts, `none` for a candidate whose content is nil, or OpenAI's status and decoded body. In
-- front, `none` is a call that fails.
pub data Provider : Type 0 where
  gemini : (Bytes → Option (List (Option (List Bytes)))) → Provider
  openai : (Bytes → Answer OpenaiResponse) → Provider

-- `read` is json.Unmarshal into the dependencies.
pub record Extractor : Type 0 where
  pub provider : Provider
  pub read : Bytes → Option (List ScannedDependency)

-- `none` is a panic: the code reads the parts of the first candidate's content, which may be nil.
abbrev pub first_text : Option (List (Option (List Bytes))) → Option (Result Bytes)
first_text none = some (err external)
first_text (some []) = some (err external)
first_text (some (none ∷ candidates)) = none
first_text (some (some [] ∷ candidates)) = some (err external)
first_text (some (some (text ∷ parts) ∷ candidates)) = some (ok text)

unfoldable pub text_in : List (Bytes × Bytes) → Option Bytes
unfolding same
text_in [] = none
text_in ((kind, text) ∷ rest) =
    let later = text_in rest in
    if same kind (bytes "output_text") && not (is_empty text) then some text else later

abbrev or_later : Option Bytes → Option Bytes → Option Bytes
or_later none later = later
or_later (some text) later = some text

unfoldable pub output_text : List OutputItem → Option Bytes
unfolding same text_in
output_text [] = none
output_text (item ∷ items) =
    let later = output_text items in
    if same item.kind (bytes "message") then or_later (text_in item.content) later else later

abbrev pub response_text : Option OpenaiResponse → Result Bytes
response_text none = err external
response_text (some r) = if r.failure then err external else body_or_error (output_text r.output)

abbrev pub openai_text : Answer OpenaiResponse → Result Bytes
openai_text none = err external
openai_text (some (status, body)) = if status == 200 then response_text body else err external

-- `none` is a panic, here and below.
abbrev pub generate : Provider → Bytes → Option (Result Bytes)
generate (gemini answer) prompt = first_text (answer prompt)
generate (openai answer) prompt = some (openai_text (answer prompt))

-- "--- <path> ---", a line feed, the content, and an empty line.
abbrev pub file_text : DependencyFile → Bytes
file_text f = bytes "--- " ++ (f.path ++ (bytes " ---" ++ (10 ∷ (f.content ++ (10 ∷ 10 ∷ [])))))

unfoldable pub file_texts : List DependencyFile → Bytes
file_texts [] = []
file_texts (f ∷ fs) = file_text f ++ file_texts fs

-- BuildExtractionPrompt
unfoldable pub build_extraction_prompt : List DependencyFile → Bytes
unfolding file_texts
build_extraction_prompt files =
    bytes "Extract all dependencies from these files:" ++ (10 ∷ 10 ∷ file_texts files)

abbrev pub fence : Bytes
fence = bytes "```"

-- All but the last element.
unfoldable pub but_last {ℓ} : {A : Type ℓ} → List A → List A
but_last [] = []
but_last (x ∷ []) = []
but_last (x ∷ y ∷ xs) = x ∷ but_last (y ∷ xs)

-- strings.Join with a line feed
unfoldable pub join_lines : List Bytes → Bytes
join_lines [] = []
join_lines (l ∷ []) = l
join_lines (l ∷ m ∷ ls) = l ++ (10 ∷ join_lines (m ∷ ls))

abbrev ends_fenced : List Bytes → Bool
ends_fenced [] = false
ends_fenced (l ∷ []) = same (trim_space l) fence
ends_fenced (l ∷ m ∷ ls) = ends_fenced (m ∷ ls)

abbrev without_fence : List Bytes → List Bytes
without_fence lines = if ends_fenced lines then but_last lines else lines

abbrev past_first : List Bytes → List Bytes
past_first [] = []
past_first (l ∷ ls) = ls

-- The text of ParseDependencies without a Markdown fence around it.
unfoldable pub unfenced : Bytes → Bytes
unfolding has_prefix split but_last join_lines trim_space same
unfenced text =
    let lines = split 10 text in
    if has_prefix fence text && ltb 2 (length lines)
    then join_lines (without_fence (but_last (past_first lines)))
    else text

-- ParseDependencies
unfoldable pub parse_dependencies : Extractor → Bytes → Result (List ScannedDependency)
unfolding trim_space unfenced
parse_dependencies e raw = body_or_error (e.read (unfenced (trim_space raw)))

abbrev pub parsed_text :
    Extractor → Option (Result Bytes) → Option (Result (List ScannedDependency))
parsed_text e none = none
parsed_text e (some (err c)) = some (err c)
parsed_text e (some (ok text)) = some (parse_dependencies e text)

-- Extract
unfoldable pub extract : Extractor → List DependencyFile → Option (Result (List ScannedDependency))
unfolding output_text build_extraction_prompt parse_dependencies
extract e files = parsed_text e (generate e.provider (build_extraction_prompt files))
