-- ===== src/Asm/Machine.antt =====
-- What the lines that asm.c writes do on a 32-bit RISC-V machine (the instructions of RV32IM that the
-- generator uses). Addresses of code are places in the list of lines; memory holds a word at an address.
use Prim.Native.Nat.{bit_and, bit_or, bit_xor}
use my_lang.Prelude.{
  ℕ, suc, ◌+◌, ◌-◌, ◌*◌, ◌/◌, ◌%◌, ◌^◌, ◌≡◌, Bool, true, false, Option, none, some, List, [], ◌∷◌,
  get_elem?, ◌==◌, ltb, leb, ◌&&◌, not, if◌then◌else◌, strcmp_eq,
}
use my_lang.Prelude.Int.{ℤ, pos, negsuc}
use my_lang.Asm.Target.{
  Register, temp, arg, save, ra, sp, zero_reg, LabelKind, lbl_for, lbl_if, lbl_while, lbl_else,
  lbl_log_and, lbl_log_or, Suffix, no_suffix, start_suffix, end_suffix, false_suffix, true_suffix,
  init_suffix, cond_suffix, body_suffix, step_suffix, Label, cond_label, func_label, label_text,
  BinOp, add, sub, mul, div, slt, sll, sra, and, or, xor, Line, binary, seqz, snez, mv, xori, addi,
  beq, bne, j, jal, jalr_ra, lw_sp, sw_sp, lw_fp, sw_fp, sw_at, label, comment, directive,
}

abbrev pub two_32 : ℕ
two_32 = 4294967296

abbrev pub word : ℕ → ℕ
word n = n % 4294967296

abbrev pub word_of : ℤ → ℕ
word_of (pos n) = word n
word_of (negsuc n) = word (4294967296 - word (suc n))

abbrev pub minus : ℕ → ℕ → ℕ
minus a b = word (word a + (4294967296 - word b))

-- The two's complement order, and the size of a word without its sign.
abbrev pub signed_lt : ℕ → ℕ → Bool
signed_lt a b = ltb (word (a + 2147483648)) (word (b + 2147483648))

abbrev magnitude : ℕ → ℕ
magnitude a = if ltb a 2147483648 then a else 4294967296 - a

-- Division rounds to zero; by zero it gives -1.
unfoldable pub divide : ℕ → ℕ → ℕ
divide a b =
    if b == 0
    then 4294967295
    else (let q = magnitude a / magnitude b in
        let same = (ltb a 2147483648 && ltb b 2147483648) in
        let both = (leb 2147483648 a && leb 2147483648 b) in
        if same then q else (if both then word q else minus 0 q))

-- The arithmetic shift: the sign is repeated.
unfoldable pub shift_right : ℕ → ℕ → ℕ
shift_right a n =
    if ltb a 2147483648 then a / 2 ^ (n % 32) else 4294967295 - (4294967295 - a) / 2 ^ (n % 32)

abbrev pub bit : Bool → ℕ
bit true = 1
bit false = 0

unfoldable pub alu : BinOp → ℕ → ℕ → ℕ
unfolding divide shift_right
alu add a b = word (a + b)
alu sub a b = minus a b
alu mul a b = word (a * b)
alu div a b = divide a b
alu slt a b = bit (signed_lt a b)
alu sll a b = word (a * 2 ^ (b % 32))
alu sra a b = shift_right a b
alu and a b = bit_and a b
alu or a b = bit_or a b
alu xor a b = bit_xor a b

abbrev pub register_eq : Register → Register → Bool
register_eq (temp i) (temp k) = i == k
register_eq (arg i) (arg k) = i == k
register_eq (save i) (save k) = i == k
register_eq ra ra = true
register_eq sp sp = true
register_eq zero_reg zero_reg = true
register_eq r q = false

pub record Machine : Type 0 where
  pub pc : ℕ
  pub regs : Register → ℕ
  pub mem : ℕ → ℕ

-- `zero` reads as 0.
abbrev pub reg : Machine → Register → ℕ
reg m zero_reg = 0
reg m r = m.regs r

-- The next line, after a word was written to a register or to memory.
abbrev pub skip : Machine → Machine
skip m = record m { pc = m.pc + 1 }

abbrev pub write : Machine → Register → ℕ → Machine
write m d v = record m { pc = m.pc + 1; regs = λ r. if register_eq d r then word v else m.regs r }

abbrev pub put : (ℕ → ℕ) → ℕ → ℕ → ℕ → ℕ
put mem address v a = if a == address then v else mem a

abbrev pub store : Machine → ℕ → ℕ → Machine
store m address v = record m { pc = m.pc + 1; mem = put m.mem address v }

abbrev pub kind_number : LabelKind → ℕ
kind_number lbl_for = 0
kind_number lbl_if = 1
kind_number lbl_while = 2
kind_number lbl_else = 3
kind_number lbl_log_and = 4
kind_number lbl_log_or = 5

abbrev pub suffix_number : Suffix → ℕ
suffix_number no_suffix = 0
suffix_number start_suffix = 1
suffix_number end_suffix = 2
suffix_number false_suffix = 3
suffix_number true_suffix = 4
suffix_number init_suffix = 5
suffix_number cond_suffix = 6
suffix_number body_suffix = 7
suffix_number step_suffix = 8

-- Two labels of the generator are the same text where the three parts agree; one of them may be the name of
-- a function.
abbrev pub label_eq : Label → Label → Bool
label_eq (cond_label k n s) (cond_label k' n' s') =
    (kind_number k == kind_number k') && ((n == n') && (suffix_number s == suffix_number s'))
label_eq (func_label f) (func_label g) = strcmp_eq f g
label_eq (cond_label k n s) (func_label f) = strcmp_eq (label_text (cond_label k n s)) f
label_eq (func_label f) (cond_label k n s) = strcmp_eq f (label_text (cond_label k n s))

-- The place of the line with the label.
abbrev pub is_label : Label → Line → Bool
is_label l (label l') = label_eq l l'
is_label l line = false

abbrev pub later : Option ℕ → Option ℕ
later none = none
later (some p) = some (suc p)

abbrev pub first : Bool → Option ℕ → Option ℕ
first true o = some 0
first false o = later o

unfoldable pub find_label : Label → List Line → Option ℕ
find_label l [] = none
find_label l (line ∷ lines) = first (is_label l line) (find_label l lines)

abbrev pub go : List Line → Label → Machine → Option Machine
go lines l m = elim (find_label l lines) [ none ↦ none | some p ↦ some (record m { pc = p }) ]

-- An immediate has twelve bits, with a sign.
abbrev pub fits : ℤ → Bool
fits (pos n) = ltb n 2048
fits (negsuc n) = ltb n 2048

-- What a line does. A line whose immediate has more than twelve bits is no instruction.
unfoldable pub exec : List Line → Line → Machine → Option Machine
unfolding alu find_label
exec lines (binary op d a b) m = some (write m d (alu op (reg m a) (reg m b)))
exec lines (seqz d a) m = some (write m d (bit (reg m a == 0)))
exec lines (snez d a) m = some (write m d (bit (not (reg m a == 0))))
exec lines (mv d a) m = some (write m d (reg m a))
exec lines (xori d a n) m = if ltb n 2048 then some (write m d (bit_xor (reg m a) n)) else none
exec lines (addi d a z) m = if fits z then some (write m d (reg m a + word_of z)) else none
exec lines (beq a b l) m = if reg m a == reg m b then go lines l m else some (skip m)
exec lines (bne a b l) m = if not (reg m a == reg m b) then go lines l m else some (skip m)
exec lines (j l) m = go lines l m
exec lines (jal l) m = go lines l (write m ra (m.pc + 1))
exec lines jalr_ra m = some (record m { pc = reg m ra })
exec lines (lw_sp d off) m =
    if ltb off 2048 then some (write m d (m.mem (word (reg m sp + off)))) else none
exec lines (sw_sp a off) m =
    if ltb off 2048 then some (store m (word (reg m sp + off)) (reg m a)) else none
exec lines (lw_fp d off) m =
    if leb off 2048 then some (write m d (m.mem (minus (reg m (save 0)) off))) else none
exec lines (sw_fp a off) m =
    if leb off 2048 then some (store m (minus (reg m (save 0)) off) (reg m a)) else none
exec lines (sw_at a b) m = some (store m (reg m b) (reg m a))
exec lines (label l) m = some (skip m)
exec lines (comment s) m = some (skip m)
exec lines (directive s) m = some (skip m)

-- The line at the program counter is done, if there is one.
unfoldable pub step : List Line → Machine → Option Machine
unfolding exec
step lines m = elim (get_elem? lines m.pc) [ none ↦ none | some line ↦ exec lines line m ]

pub data Reaches (lines : List Line) : Machine → Machine → Type 0 where
  here : {m : Machine} → Reaches lines m m
  onward : {m m₁ m₂ : Machine} → step lines m ≡ some m₁ → Reaches lines m₁ m₂ → Reaches lines m m₂

pub Reaches-trans :
    {lines : List Line} {a b c : Machine}
    → Reaches lines a b
    → Reaches lines b c
    → Reaches lines a c
Reaches-trans here r = r
Reaches-trans (onward e q) r = onward e (Reaches-trans q r)
