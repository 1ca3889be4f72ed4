-- ===== src/Base/Fault.antt =====
-- What a call does that may meet a failed ASSERT, which is `abort`: macro.h logs and calls assert, which
-- ends the process. `undefined` is behaviour of which C++ says nothing, in the formatting of a log
-- event: a read beyond the end of an array, of a null logger, or of what a failed strftime leaves.
use mathlib.Core.Path.{◌≡◌, refl}
use mathlib.Core.Bool.{Bool, true, false}
use eva.Base.Tests.{if◌then◌else◌}
use mathlib.Core.Option.{Option, none, some}
use eva.Base.Lists.{is_some}

pub data Outcome {ℓ} (Answer : Type ℓ) : Type ℓ where
  abort undefined : Outcome Answer
  ok : Answer → Outcome Answer

-- The macro ASSERT(x) of macro.h.
abbrev pub assert : Bool → Outcome (Unit {0})
assert false = abort
assert true = ok tt

-- The rest of a function, after a call that may have ended the process.
infixl 5 ◌>>=◌
abbrev pub ◌>>=◌ {ℓ κ} :
    {Got : Type ℓ} {Answer : Type κ} → Outcome Got → (Got → Outcome Answer) → Outcome Answer
abort >>= rest = abort
undefined >>= rest = undefined
ok got >>= rest = rest got

infixl 5 ◌>>◌
abbrev pub ◌>>◌ {ℓ} : {Answer : Type ℓ} → Outcome (Unit {0}) → Outcome Answer → Outcome Answer
abort >> rest = abort
undefined >> rest = undefined
ok passed >> rest = rest

-- A function that returns has come through its first call.
pub >>=-returns {ℓ κ} :
    {Got : Type ℓ} {Answer : Type κ} {answer : Answer} (first : Outcome Got)
    (rest : Got → Outcome Answer)
    → (first >>= rest) ≡ ok answer
    → (got : Got) × (first ≡ ok got) × (rest got ≡ ok answer)
>>=-returns abort rest e = cc
>>=-returns undefined rest e = cc
>>=-returns (ok got) rest e = (got, refl, e)

-- ASSERT(x) where x calls the system: the macro evaluates x a second time in its call of assert, so a
-- call that fails is made again.
second_try {ℓ κ} :
    {Answer : Type ℓ} {World : Type κ} → Option Answer × World → Outcome (Answer × World)
second_try (none, w) = abort
second_try (some answer, w) = ok (answer, w)

first_try {ℓ κ} :
    {Answer : Type ℓ} {World : Type κ}
    → (World → Option Answer × World)
    → Option Answer × World
    → Outcome (Answer × World)
unfolding second_try
first_try call (none, w) = second_try (call w)
first_try call (some answer, w) = ok (answer, w)

unfoldable pub assert_call {ℓ κ} :
    {Answer : Type ℓ} {World : Type κ}
    → (World → Option Answer × World)
    → World
    → Outcome (Answer × World)
unfolding first_try
assert_call call w = first_try call (call w)

second-works {ℓ κ} :
    {Answer : Type ℓ} {World : Type κ} (x : Option Answer × World)
    → is_some x.0 ≡ true
    → (a : Answer × World) × (second_try x ≡ ok a)
unfolding second_try
second-works (none, w) h = cc
second-works (some answer, w) h = ((answer, w), refl)

first-works {ℓ κ} :
    {Answer : Type ℓ} {World : Type κ} (call : World → Option Answer × World)
    (x : Option Answer × World)
    → (if is_some x.0 then true else is_some (call x.1).0) ≡ true
    → (a : Answer × World) × (first_try call x ≡ ok a)
unfolding first_try
first-works call (none, w) h = second-works (call w) h
first-works call (some answer, w) h = ((answer, w), refl)

-- Where one of the two tries works, the call returns.
pub assert_call-works {ℓ κ} :
    {Answer : Type ℓ} {World : Type κ} (call : World → Option Answer × World) (w : World)
    → (if is_some (call w).0 then true else is_some (call (call w).1).0) ≡ true
    → (a : Answer × World) × (assert_call call w ≡ ok a)
unfolding assert_call
assert_call-works call w h = first-works call (call w) h
