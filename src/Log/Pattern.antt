-- ===== src/Log/Pattern.antt =====
-- LogFormatter of src/log.cpp: how initItems reads a pattern.
pub mod Fuel
pub mod Segments
pub mod Meaning
use eva.Base.{
  ℕ, zero, suc, ◌+◌, Bool, true, false, List, [], ◌∷◌, ◌++◌, Option, none, some, ◌==◌,
  if◌then◌else◌, length, Bytes, codes,
}
use eva.Log.{
  Item, message, line_number, logger_name, tab, new_line, level_name, file_name, thread_number,
  thread_title, fiber_number, literal, date_item,
}

-- The map FORMATS: how the item of a key is made from the text between the braces.
unfoldable pub formats : ℕ → Option (Bytes → Item)
unfolding date_item
formats c =
    if c == b'm'
    then some (λ fmt. message)
    else if c == b'p'
    then some (λ fmt. level_name)
    else if c == b'c'
    then some (λ fmt. logger_name)
    else if c == b't'
    then some (λ fmt. thread_number)
    else if c == b'n'
    then some (λ fmt. new_line)
    else if c == b'f'
    then some file_name
    else if c == b'l'
    then some (λ fmt. line_number)
    else if c == b'T'
    then some (λ fmt. tab)
    else if c == b'd'
    then some date_item
    else if c == b'N'
    then some (λ fmt. thread_title)
    else if c == b'F'
    then some (λ fmt. fiber_number)
    else none

pub data ParseError : Type 0 where
  second_percent open_brace : ParseError
  invalid_item : ℕ → ParseError

-- What is written to std::cout.
unfoldable pub error_text : ParseError → Bytes
error_text second_percent = codes "parse_error: %\n"
error_text open_brace = codes "parse_error: open {}\n"
error_text (invalid_item c) = codes "parse_error: invalid item" ++ c ∷ codes "\n"

-- The items that initItems pushes, and the error that ends it early.
pub record Parsed : Type 0 where
  pub items : List Item
  pub error : Option ParseError

abbrev pub nothing_more : Option ParseError → Parsed
nothing_more e = record { items = []; error = e }

abbrev pub push : Item → Option Parsed → Option Parsed
push i none = none
push i (some r) = some (record r { items = i ∷ r.items })

-- The inner loop: the text up to `}`, what stands behind it, and fmt_found.
unfoldable pub read_fmt : Bytes → Bytes × Bytes × Bool
read_fmt [] = ([], [], false)
read_fmt (c ∷ s) =
    let later : Bytes × Bytes × Bool = read_fmt s in
    if c == b'}' then ([], s, true) else (c ∷ later.0, later.1, later.2)

-- In what follows, `next found s` goes on with the outer loop at the text s.
abbrev pub Next : Type 0
Next = Bool → Bytes → Option Parsed

unfoldable pub end_fmt : Next → (Bytes → Item) → Bytes × Bytes × Bool → Option Parsed
end_fmt next make (fmt, rest, true) = push (make fmt) (next false rest)
end_fmt next make (fmt, rest, false) = push (make fmt) (some (nothing_more (some open_brace)))

unfoldable pub after_key : Next → (Bytes → Item) → Bytes → Option Parsed
unfolding read_fmt end_fmt
after_key next make [] = push (make []) (next false [])
after_key next make (c ∷ s) =
    if c == b'{' then end_fmt next make (read_fmt s) else push (make []) (next false (c ∷ s))

unfoldable pub at_key : Next → Option (Bytes → Item) → ℕ → Bytes → Option Parsed
unfolding after_key
at_key next none c s = some (nothing_more (some (invalid_item c)))
at_key next (some make) c s = after_key next make s

-- The body of the outer loop.
unfoldable pub on_char : Next → Bool → ℕ → Bytes → Option Parsed
unfolding formats at_key
on_char next found c s =
    if c == b'%'
    then (if found then some (nothing_more (some second_percent)) else next true s)
    else if found
    then at_key next (formats c) c s
    else push (literal (c ∷ [])) (next false s)

-- The outer loop, none where the fuel runs out; `it < m_pattern.end()` fails at the empty rest.
unfoldable pub scan : ℕ → Bool → Bytes → Option Parsed
unfolding on_char
scan zero found s = none
scan (suc fuel) found [] = some (nothing_more none)
scan (suc fuel) found (c ∷ s) = on_char (scan fuel) found c s

abbrev pub scan_from : Next
scan_from found s = scan (suc (length s)) found s

unfoldable pub init_items : Bytes → Option Parsed
unfolding scan
init_items pattern = scan_from false pattern
