-- ===== src/Text/Tests.antt =====
-- The theorems about texts at concrete inputs.
use p2p_file_sharing_system.Prelude.{◌≡◌, [], ◌∷◌, ◌++◌, arith, negsuc}
use p2p_file_sharing_system.Result.{ok}
use p2p_file_sharing_system.Text.{codes}
use p2p_file_sharing_system.Text.Number.{stoi, to_string}
use p2p_file_sharing_system.Text.Number.RoundTrip.{stoi-to_string}
use p2p_file_sharing_system.Text.Split.{split_string, join_string}
use p2p_file_sharing_system.Text.Split.Join.{join_string-split_string, split_string-join_string}

stoi-to_string_example : stoi (to_string (negsuc 41)) ≡ ok (negsuc 41)
stoi-to_string_example = stoi-to_string (negsuc 41) (omega arith)

join_string-split_string_example :
    (join_string (split_string (codes "a,,b" ++ b',' ∷ []) (b',' ∷ []) (negsuc 0)) (b',' ∷ [])
      ≡ codes "a,,b")
    × (join_string (split_string (codes "a,,b" ++ b'c' ∷ []) (b',' ∷ []) (negsuc 0)) (b',' ∷ [])
        ≡ codes "a,,b" ++ b'c' ∷ [])
join_string-split_string_example = join_string-split_string (codes "a,,b") b',' b'c' (omega arith)

split_string-join_string_example :
    split_string
      (join_string (codes "ab" ∷ [] ∷ codes "c" ∷ []) (b'\n' ∷ []))
      (b'\n' ∷ [])
      (negsuc 0)
    ≡ codes "ab" ∷ [] ∷ codes "c" ∷ []
split_string-join_string_example =
    split_string-join_string (codes "ab" ∷ [] ∷ codes "c" ∷ []) b'\n' (omega arith) (λ e. cc)
