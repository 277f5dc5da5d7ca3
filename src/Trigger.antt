-- ===== src/Trigger.antt =====
-- `Fiction_trigger` of lib/Affix.cxx: a call of a bound function.
pub mod Args
pub mod Results
pub mod Arity
pub mod Values
use fiction.Prelude.{
  ℕ, ◌≡◌, Bool, true, false, Option, none, some, List, [], ◌∷◌, ◌==◌, ltb, if◌then◌else◌, length,
}
use fiction.Flags.{Flag}
use fiction.Types.{AffixType}
use fiction.Memory.{Fiction, Croak, arguments, M, pure, ◌>>=◌, fail, undefined_behaviour}
use fiction.Aggregate
use fiction.Aggregate.{Aggr}
use fiction.Call.{CallArg}
use fiction.Env.{Env}
use Args.{lift, trigger_args, untyped_args}
use Results.{set_result}

module _ (E : Env) where
  open E use {Sv}

  unfoldable pub begin : Fiction Sv → M Sv (Option Aggr)
  begin a =
      if a.aggr_restype
      then (elim a.restype [
        | none ↦ undefined_behaviour
        | some t ↦ do d ← lift E (Aggregate.aggregate t); pure (some d)
      ])
      else pure none

  unfoldable pub gather : Fiction Sv → List Sv → M Sv (List CallArg)
  gather a svs = elim a.signature [
    | none ↦ pure (untyped_args E svs)
    | some signature ↦
        if length svs == length signature
        then trigger_args E signature a.argtypes svs
        else fail (
            arguments (if ltb (length signature) (length svs) then "Too many" else "Not enough")
              a.symbol (length signature) (length svs))
  ]

  -- The new state of the fiction (its `res`), and ST(0): `none` leaves it as it was.
  unfoldable pub trigger : ℕ → Fiction Sv → List Sv → M Sv (Fiction Sv × Option Sv)
  unfolding begin gather
  trigger fuel a svs = do
    ret_aggr ← begin a
    args ← gather a svs
    res ← set_result E fuel a ret_aggr args
    pure (record a { res = res }, res)
