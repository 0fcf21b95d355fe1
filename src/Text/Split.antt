-- ===== src/Text/Split.antt =====
-- SplitString, JoinString and SplitCommandStringBySize of src/defines.cpp.
use p2p_file_sharing_system.Prelude.{
  ℕ, ◌+◌, ◌<◌, ◌≡◌, refl, Bool, true, false, ◌&&◌, ◌||◌, List, [], ◌∷◌, ◌++◌, ◌==◌, ltb,
  if◌then◌else◌, ℤ, pos, negsuc, ltb_ℤ, leb_ℤ, length,
}
use p2p_file_sharing_system.Result.{Result, ok, fault, runtime_error}
use p2p_file_sharing_system.Text.{Bytes, codes, newline}
pub mod Join

-- One byte of the set that std::string::find_first_of looks for.
unfoldable pub one_of : ℕ → Bytes → Bool
one_of c [] = false
one_of c (d ∷ ds) = c == d || one_of c ds

is_empty : Bytes → Bool
is_empty [] = true
is_empty (c ∷ s) = false

-- What stands behind the last delimiter is a part unless it is empty.
last_part : List Bytes → Bytes → List Bytes
unfolding is_empty
last_part result rest = if is_empty rest then result else result ++ rest ∷ []

-- The loop of SplitString, a byte a round: `part` is what stands between `start` and the byte.
split_loop : Bytes → ℤ → Bytes → Bytes → ℕ → List Bytes → List Bytes
unfolding last_part one_of
split_loop delim split_num [] part split_count result = last_part result part
split_loop delim split_num (c ∷ s) part split_count result =
    let next = split_loop delim split_num s [] (split_count + 1) (result ++ part ∷ []) in
    let longer = split_loop delim split_num s (part ++ c ∷ []) split_count result in
    if one_of c delim
    then (if ltb_ℤ (pos 0) split_num && leb_ℤ split_num (pos (split_count + 1))
        then last_part (result ++ part ∷ []) s
        else next)
    else longer

unfoldable pub split_string : Bytes → Bytes → ℤ → List Bytes
unfolding split_loop
split_string s delim split_num = split_loop delim split_num s [] 0 []

-- The loop of JoinString: a delimiter behind every part but the last.
join_loop : List Bytes → Bytes → Bytes → Bytes
join_loop [] delim result = result
join_loop (p ∷ []) delim result = result ++ p
join_loop (p ∷ q ∷ ps) delim result = join_loop (q ∷ ps) delim ((result ++ p) ++ delim)

unfoldable pub join_string : List Bytes → Bytes → Bytes
unfolding join_loop
join_string [] delim = []
join_string (p ∷ ps) delim = join_loop (p ∷ ps) delim []

-- std::getline until the stream ends: a final newline ends the last line and begins none.
getlines : Bytes → Bytes → List Bytes
unfolding is_empty
getlines [] line = if is_empty line then [] else line ∷ []
getlines (c ∷ s) line =
    let ended = line ∷ getlines s [] in
    let longer = getlines s (line ++ c ∷ []) in if c == newline then ended else longer

-- The loop of SplitCommandStringBySize over the lines.
pack_lines : Bytes → ℕ → List Bytes → Bytes → List Bytes → Result (List Bytes)
unfolding last_part
pack_lines head max_size [] current output = ok (last_part output current)
pack_lines head max_size (line ∷ lines) current output =
    let flushed =
      pack_lines head max_size lines (head ++ line ++ newline ∷ []) (output ++ current ∷ []) in
    let joined = pack_lines head max_size lines (current ++ line ++ newline ∷ []) output in
    if ltb max_size (length line)
    then fault runtime_error
    else if ltb max_size (length current + length line + 2)
    then flushed
    else joined

unfoldable pub split_command_string_by_size : Bytes → Bytes → ℕ → Result (List Bytes)
unfolding getlines pack_lines
split_command_string_by_size input command max_size =
    let head = command ++ newline ∷ [] in pack_lines head max_size (getlines input []) head []

-- The run of src/test.cpp.
split_two :
    split_string (codes "a b c d e") (codes " ") (pos 2)
    ≡ codes "a" ∷ codes "b" ∷ codes "c d e" ∷ []
unfolding split_string
split_two = refl

split_all : split_string (codes "a,,b,") (codes ",") (negsuc 0) ≡ codes "a" ∷ [] ∷ codes "b" ∷ []
unfolding split_string
split_all = refl

packed :
    split_command_string_by_size (codes "one\ntwo\nthree") (codes "c") 12
    ≡ ok (codes "c\none\ntwo\n" ∷ codes "c\nthree\n" ∷ [])
unfolding split_command_string_by_size
packed = refl
