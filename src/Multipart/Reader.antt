-- ===== src/Multipart/Reader.antt =====
-- RFC 2046 and RFC 7578 from the side of a reader: how a body falls into parts, and what a part says.
pub mod Splitting
pub mod Bodies
use rs_detritus.Common.{
  ℕ, suc, zero, Str, Bool, true, false, Option, none, some, List, [], ◌∷◌, ◌++◌, bytes, length, not,
  ◌&&◌, nat_eqb, strip_prefix, starts_with, if◌then◌else◌,
}
use rs_detritus.Multipart.{crlf}
use rs_detritus.Multipart.Format.{Form}

push_first : ℕ → List Str → List Str
push_first c [] = (c ∷ []) ∷ []
push_first c (p ∷ ps) = (c ∷ p) ∷ ps

abbrev tail_length : Str → ℕ
tail_length [] = 0
tail_length (c ∷ d) = length d

-- The pieces between the delimiters, once `skipped` bytes of one are passed over.
unfoldable pub pieces : Str → ℕ → Str → List Str
unfolding push_first
pieces d skipped [] = [] ∷ []
pieces d (suc n) (c ∷ s) = pieces d n s
pieces d zero (c ∷ s) =
    let inside = pieces d zero s in
    let behind = pieces d (tail_length d) s in
    if starts_with d (c ∷ s) then [] ∷ behind else push_first c inside

add_first : ℕ → Option (Str × Str) → Option (Str × Str)
add_first c none = none
add_first c (some (a, b)) = some (c ∷ a, b)

split_here : Option Str → Option (Str × Str) → Option (Str × Str)
split_here none later = later
split_here (some rest) later = some ([], rest)

-- The text before a delimiter and behind it.
unfoldable pub split_at : Str → Str → Option (Str × Str)
unfolding add_first split_here
split_at d [] = none
split_at d (c ∷ s) =
    let later = split_at d s in split_here (strip_prefix d (c ∷ s)) (add_first c later)

-- No delimiter begins in the text, even where the text is followed by one.
unfoldable pub is_clear : Str → Str → Bool
is_clear d [] = true
is_clear d (c ∷ a) = not (starts_with d ((c ∷ a) ++ d)) && is_clear d a

-- The value of the first header line that begins so.
unfoldable pub header : Str → List Str → Option Str
header name [] = none
header name (l ∷ ls) =
    let later = header name ls in elim (strip_prefix name l) [ none ↦ later | some v ↦ some v ]

form_of : List Str → Str → Option Str → Option Str → Option Form
form_of lines contents (some name) (some content_type) = some (record {
  name = name;
  content_type = content_type;
  content_encoding = header (bytes "Content-Encoding: ") lines;
  contents = contents;
})
form_of lines contents none content_type = none
form_of lines contents (some name) none = none

text_before : Option (Str × Str) → Option Str
text_before none = none
text_before (some (a, b)) = some a

-- The text before the closing quote.
quoted : Option Str → Option Str
unfolding text_before
quoted none = none
quoted (some s) = text_before (split_at (bytes "\"") s)

-- A part, from its header lines and what follows the empty line.
read_head : Option (Str × Str) → Option Form
unfolding form_of quoted text_before
read_head none = none
read_head (some (head, contents)) =
    let lines = pieces crlf 0 head in
    form_of lines contents (quoted (header (bytes "Content-Disposition: form-data; name=\"") lines))
      (header (bytes "Content-Type: ") lines)

read_form : Option Str → Option Form
unfolding read_head
read_form none = none
read_form (some t) = read_head (split_at (crlf ++ crlf) t)

join_forms : Option Form → Option (List Form) → Option (List Form)
join_forms (some f) (some fs) = some (f ∷ fs)
join_forms none rest = none
join_forms (some f) none = none

-- The parts up to the closing delimiter, which `--` follows.
unfoldable pub read_pieces : List Str → Option (List Form)
unfolding join_forms read_form
read_pieces [] = none
read_pieces (p ∷ ps) =
    let rest = read_pieces ps in
    if starts_with (bytes "--") p
    then some []
    else join_forms (read_form (strip_prefix crlf p)) rest

-- The delimiter is on a line of its own; the first may begin the body, and what stands before it is
-- passed over.
abbrev pub delimiter : Str → Str
delimiter boundary = crlf ++ (bytes "--" ++ boundary)

behind_preamble : List Str → Option (List Form)
behind_preamble [] = none
behind_preamble (preamble ∷ ps) = read_pieces ps

unfoldable pub read_body : Str → Str → Option (List Form)
unfolding behind_preamble
read_body boundary body = behind_preamble (pieces (delimiter boundary) 0 (crlf ++ body))
