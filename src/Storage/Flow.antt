-- ===== src/Storage/Flow.antt =====
-- What a call comes to in pkg/storage, where `await` may wait for a channel and the source may
-- panic. A panic ends the program.
use nanokube.Prelude.{Bool, ◌||◌, Option, none, some, if◌then◌else◌}

pub data Flow {ℓ} (A : Type ℓ) : Type ℓ where
  gives : A → Flow A
  waits : Flow A
  panics : Flow A

infixl 5 ◌>>=◌
abbrev pub ◌>>=◌ {ℓ κ} : {A : Type ℓ} {B : Type κ} → Flow A → (A → Flow B) → Flow B
gives a >>= f = f a
waits >>= f = waits
panics >>= f = panics

-- The value of a pointer that is dereferenced.
abbrev pub deref {ℓ} : {A : Type ℓ} → Option A → Flow A
deref none = panics
deref (some a) = gives a

-- `await` on the channel, which is closed or not, and the context, which is done or not; then the
-- rest of the function.
abbrev pub await {ℓ} : {A : Type ℓ} → Bool → Bool → Flow A → Flow A
await closed ended rest = if closed || ended then rest else waits
