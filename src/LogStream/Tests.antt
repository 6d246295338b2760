-- ===== src/LogStream/Tests.antt =====
-- A stream with a few items, and formats of numbers.
use my_learning.Base.{◌≡◌, ◌≤◌, refl, true, [], ◌∷◌, length, arith, replicate}
use my_learning.Base.Int.{pos, negsuc, ◌+ℤ◌}
use my_learning.LogStream.{
  FixedBuffer, bool, integer, new_buffer, put, put_all, to_string, convert, convert_loop, reverse,
  digit, append, format_integer, convert_hex, convert_hex_loop,
}
use my_learning.LogStream.Convert.{read, convert_lem}
use my_learning.LogStream.Bounds.{Put, text_of, put_lem}

-- "-120" and "1"
stream_text :
    to_string (put_all (new_buffer 60) (integer (negsuc 119) ∷ bool true ∷ []))
    ≡ 45 ∷ 49 ∷ 50 ∷ 48 ∷ 49 ∷ []
unfolding put_all put new_buffer append format_integer convert convert_loop reverse digit ◌+ℤ◌
stream_text = refl

-- "2AF"
hex_text : convert_hex 687 ≡ 50 ∷ 65 ∷ 70 ∷ []
unfolding convert_hex convert_hex_loop reverse
hex_text = refl

convert_lem_example : (read (convert (negsuc 41)) ≡ negsuc 41) × (length (convert (negsuc 41)) ≤ 21)
convert_lem_example = convert_lem (negsuc 41) (omega arith)

abbrev small : FixedBuffer
small = record { data_chars = replicate 50 0; cur = 2 }

put_lem_example : Put (text_of (integer (pos 7))) small (put small (integer (pos 7)))
put_lem_example = put_lem small (integer (pos 7)) (omega arith) (omega arith)
