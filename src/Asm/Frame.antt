-- ===== src/Asm/Frame.antt =====
-- asm.c: the layout of a stack frame.
use my_lang.Prelude.{ℕ, ◌+◌, ◌*◌, ◌%◌, ◌≤◌, ◌≡◌, arith}
use my_lang.Asm.State.{temp_count, arg_count}
use my_lang.Asm.Eval.{locals_base}
use my_lang.Asm.Gen.{frame_size}

-- For a function whose locals are `words` words, the size of the frame is a multiple of 16, is at most 16
-- bytes more than its parts, and has room below the locals for a word of each temporary register and
-- for a word of each argument register: what a call stores there stays inside the frame, when it is
-- placed by the size of that same frame.
pub frame_size-layout :
    (words : ℕ)
    → (frame_size (4 * words) % 16 ≡ 0)
      × (locals_base + 4 * words + 4 * temp_count + 4 * arg_count ≤ frame_size (4 * words))
      × (frame_size (4 * words) ≤ 4 * 2 + 4 * words + 4 * (temp_count + arg_count * 2) + 16)
unfolding frame_size
frame_size-layout words = (omega arith, omega arith, omega arith)
