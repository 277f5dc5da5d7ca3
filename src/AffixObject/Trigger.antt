-- ===== src/AffixObject/Trigger.antt =====
-- `Affix_trigger` of lib/Affix.cxx as a whole: its checks, its loop, its result, and what it writes back.
use fiction.Prelude.{
  ℕ, zero, suc, ◌+◌, not, ◌&&◌, ◌||◌, false, Option, none, some, List, [], ◌∷◌, ◌==◌, ltb,
  if◌then◌else◌, length, get_elem?, ◌++◌,
}
use fiction.Flags.{Flag}
use fiction.Types.{AffixType}
use fiction.Memory.{arguments, M, pure, ◌>>=◌, fail, undefined_behaviour, calloc}
use fiction.Call.{CallArg, CallMode, c_default, arg_pointer}
use fiction.Env.{Env, sizeof_intptr}
use fiction.Unmarshal.{ptr2sv}
use fiction.AffixObject.{Affix}
use fiction.AffixObject.Results.{affix_result}
use fiction.AffixObject.Args.{Loop, affix_loop, stack}

-- Whether the call restores the default mode when it is done.
unfoldable pub final_mode : Loop → CallMode
final_mode l = if l.reset_mode then c_default else l.mode

-- The number of items that a call checks for: the object of a C++ method comes first.
unfoldable pub wanted : Affix → ℕ
wanted a = if a.cpp_struct && not a.cpp_constructor then suc a.num_args else a.num_args

-- The loop's variables where it starts.
abbrev pub begun : CallMode → Option (ℕ → ℕ) → List CallArg → ℕ → Loop
begun mode temp args i = record {
  mode = mode;
  handed = args;
  st_pos = i;
  temp_ptrs = temp;
  reset_mode = false;
}

module _ (E : Env) where
  open E use {
    Sv, sv_readonly, new_iv, new_uv, new_nv, new_bool, new_dual, new_pvn, float_nv, double_nv,
    pack_wchar, std_string_text, new_instance, new_object, dc_call_in, malloc,
  }

  unfoldable pub write_one :
      ℕ → List (Flag × AffixType) → (ℕ → ℕ) → List Sv → ℕ → M Sv (List (ℕ × Sv))
  write_one fuel ts temp svs i = if temp i == 0 then pure [] else (do
    sv ← stack E svs i
    if sv_readonly sv then pure [] else elim (get_elem? ts i) [
      | none ↦ undefined_behaviour
      | some ft ↦ do v ← ptr2sv E fuel ft.1 (temp i); pure ((i, v) ∷ [])
    ])

  -- The loop that sets the scalars from what is kept in temp_ptrs: for the positions from `i` on, the
  -- `n` that are left, the position and the value that sv_setsv_mg is called with. The type is that
  -- at the scalar's position.
  unfoldable pub write_back :
      ℕ → List (Flag × AffixType) → (ℕ → ℕ) → List Sv → (n i : ℕ) → M Sv (List (ℕ × Sv))
  unfolding write_one
  write_back fuel ts temp svs zero i = pure []
  write_back fuel ts temp svs (suc n) i = do
    set ← write_one fuel ts temp svs i
    rest ← write_back fuel ts temp svs n (i + 1)
    pure (set ++ rest)

  -- What a call leaves behind: the Affix, dyncall's mode, the scalars set, and ST(0), which is
  -- `none` where the result is void or a code reference.
  pub record Called : Type 0 where
    pub after : Affix
    pub vm_mode : CallMode
    pub written : List (ℕ × Sv)
    pub retval : Option Sv

  -- The arguments and the mode before the loop. A constructor's object is an intptr_t, and its class
  -- is the first item.
  unfoldable pub first_loop : CallMode → Affix → List Sv → M Sv Loop
  first_loop mode a svs =
      if a.cpp_constructor
      then (do
        this ← calloc malloc sizeof_intptr
        _ ← stack E svs 0
        pure (begun mode a.temp_ptrs (arg_pointer this ∷ []) 1))
      else pure (begun mode a.temp_ptrs [] 0)

  abbrev pub called : Affix → Loop → Option Sv × ℕ → List (ℕ × Sv) → Called
  called a l r written = record {
    after = record a { temp_ptrs = l.temp_ptrs; ret_ptr = r.1 };
    vm_mode = final_mode l;
    written = written;
    retval = r.0;
  }

  -- What is kept outlives the call, and is written back by the next one too.
  unfoldable pub write_kept : ℕ → Affix → List Sv → Option (ℕ → ℕ) → M Sv (List (ℕ × Sv))
  unfolding write_back
  write_kept fuel a svs none = pure []
  write_kept fuel a svs (some temp) = write_back fuel a.args temp svs a.num_args 0

  -- The call behind the loop.
  unfoldable pub finish_call : ℕ → Affix → List Sv → Loop → M Sv Called
  unfolding affix_result write_kept final_mode
  finish_call fuel a svs l = do
    r ← affix_result E fuel a l a.ret_type
    written ← write_kept fuel a svs l.temp_ptrs
    pure (called a l r written)

  -- The call from the checked items on.
  unfoldable pub affix_run : ℕ → CallMode → Affix → List Sv → M Sv Called
  unfolding first_loop affix_loop finish_call
  affix_run fuel mode a svs = do
    l₀ ← first_loop mode a svs
    l ← affix_loop E a svs 0 a.args l₀
    finish_call fuel a svs l

  -- `Affix_trigger`. `mode` is the one that dyncall's VM, which all calls share, was left in. The
  -- message is that of `croak`, which gives no symbol.
  unfoldable pub affix_trigger : ℕ → CallMode → Affix → List Sv → M Sv Called
  unfolding wanted affix_run
  affix_trigger fuel mode a svs =
      if a.ellipsis || length svs == wanted a
      then affix_run fuel mode a svs
      else fail (
          arguments (if ltb (wanted a) (length svs) then "Too many" else "Not enough") [] (wanted a)
            (length svs))
