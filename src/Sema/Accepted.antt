-- ===== src/Sema/Accepted.antt =====
-- sema.c: programs that both walks come through, and what the code generator is given of them.
use my_lang.Prelude.{
  ℕ, ◌+◌, ◌*◌, ◌%◌, ◌<◌, ◌≤◌, ◌≡◌, refl, ap, ◌∙◌, none, some, List, [], ◌∷◌, All, All-mono, length,
  get_elem?-known, ok, stop, Stop, Post-ok, bind, Bytes, bytes, strcmp_eq, if◌then◌else◌, ◌||◌,
}
use my_lang.HashMap.Table.{HashMap}
use my_lang.Symbol.{TypeEnvEntry, SymTabEntry}
use my_lang.Ast.{AstNode}
use my_lang.Sema.Scope.{Scope, no_scope, exit_scope}
use my_lang.Sema.State.{Sema}
use my_lang.Sema.Program.{sym_program, type_program, global, sema_check, warn_unused}
use my_lang.Sema.Later.{IsFrame, Extends, wider}
use my_lang.Sema.Sound.{sema_check-Fueled}
use my_lang.Sema.Bound.{global-IsWell, program-Done}
use my_lang.Asm.State.{temp_count, arg_count}
use my_lang.Asm.Eval.{locals_base}
use my_lang.Asm.Gen.{frame_size}
use my_lang.Asm.Frame.{frame_size-layout}

warned :
    (entries : List SymTabEntry) (places : List ℕ)
    → All (λ place. place < length entries) places
    → (ws : List Bytes) × (warn_unused entries places ≡ ok ws)
unfolding warn_unused
warned entries [] h = ([], refl)
warned entries (place ∷ places) h =
    let (ws, e) = warned entries places h.1 in
    let (symbol, k) = get_elem?-known entries place h.0 in
    (
      (if symbol.is_used || strcmp_eq symbol.key (bytes "main") then ws else symbol.key ∷ ws),
      ap
            (λ o.
              bind (elim o [ none ↦ stop Stop.undefined | some entry ↦ ok entry ])
                λ symbol. bind (warn_unused entries places) λ ws. ok (
                  if symbol.is_used || strcmp_eq symbol.key (bytes "main")
                  then ws
                  else symbol.key ∷ ws))
            k
          ∙ ap
              (λ r. bind r λ ws. ok (
                if symbol.is_used || strcmp_eq symbol.key (bytes "main")
                then ws
                else symbol.key ∷ ws))
              e,
    )

left : {sc : Scope} → Extends (global.scope) sc → exit_scope sc ≡ ok no_scope
unfolding exit_scope
left (wider parent f) = refl

-- A program that `sym_check` and `type_check` come through is accepted: the global scope can be left, and
-- every entry that is looked at for a warning is there.
pub sema_check-accepts :
    (type_env : HashMap TypeEnvEntry) (prog prog' : List AstNode) (s : Sema)
    → sym_program type_env prog global ≡ ok (prog', s)
    → type_program s.entries prog' ≡ ok tt
    → (warnings : List Bytes) × (sema_check prog type_env
        ≡ ok (prog', record s { scope = no_scope }, warnings))
unfolding sema_check
sema_check-accepts type_env prog prog' s e t =
    let d = Post-ok (program-Done type_env prog global global-IsWell) e in
    let (ws, w) = warned s.entries s.symbols d.well.store.listed in
    (ws, rw (e, left d.later.extended, t, w))

-- Where the semantic analysis returns, the frame that the code generator lays out for each function is a
-- multiple of 16 and has room for its locals, and behind them for a word of each temporary register and
-- of each argument register.
pub frame_size-sema_check :
    (prog prog' : List AstNode) (type_env : HashMap TypeEnvEntry) (s : Sema) (warnings : List Bytes)
    → sema_check prog type_env ≡ ok (prog', s, warnings)
    → All
        (λ frame.
          (frame_size frame.size % 16 ≡ 0)
          × (locals_base + frame.size + 4 * temp_count + 4 * arg_count ≤ frame_size frame.size))
        s.frames
frame_size-sema_check prog prog' type_env s warnings e =
    All-mono IsFrame _ s.frames
      (λ frame h. let (aligned, room, _) = frame_size-layout h.words in rw h.size (aligned, room))
      (Post-ok (sema_check-Fueled prog type_env) e).1
