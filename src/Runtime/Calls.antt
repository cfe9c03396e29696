-- ===== src/Runtime/Calls.antt =====
-- Calls of src/sarmady/runtime/model.py on the store: what they wrote stays written when they
-- raise, since every transaction of the store is committed on its own.
use sarmady.Outcome.{Exception, Outcome, ok, err}
use sarmady.Store.{Db}

abbrev pub Call : Type 0 → Type 0
Call A = Db → Db × Outcome A

abbrev pub continue : {A B : Type 0} → Db × Outcome A → (A → Call B) → Db × Outcome B
continue (db, ok a) k = k a db
continue (db, err e) k = (db, err e)

infixl 5 ◌>>=◌ ◌>>◌
abbrev pub ◌>>=◌ : {A B : Type 0} → Call A → (A → Call B) → Call B
m >>= k = λ db. continue (m db) k

abbrev pub ◌>>◌ : {B : Type 0} → Call (Unit {0}) → Call B → Call B
m >> k = m >>= λ _. k

-- A computation that reads the store only.
abbrev pub reading : {A : Type 0} → (Db → Outcome A) → Call A
reading f db = (db, f db)

abbrev pub pure : {A : Type 0} → Outcome A → Call A
pure m db = (db, m)

abbrev pub settled : {A : Type 0} → Outcome (Db × A) → Call A
settled (ok (db', a)) db = (db', ok a)
settled (err e) db = (db, err e)

-- `_write_transaction`: a body that raises is rolled back.
abbrev pub transaction : {A : Type 0} → (Db → Outcome (Db × A)) → Call A
transaction body db = settled (body db) db

abbrev pub written : Outcome Db → Call (Unit {0})
written (ok db') db = (db', ok tt)
written (err e) db = (db, err e)

-- A transaction that returns nothing.
abbrev pub write : (Db → Outcome Db) → Call (Unit {0})
write body db = written (body db) db

abbrev pub rescue : {A : Type 0} → Db × Outcome A → (Exception → Call (Unit {0})) → Db × Outcome A
rescue (db, ok a) handler = (db, ok a)
rescue (db, err e) handler = continue (handler e db) (λ _ db'. (db', err e))

-- `try: … except Exception as exc: handler(exc); raise`
abbrev pub try_or : {A : Type 0} → Call A → (Exception → Call (Unit {0})) → Call A
try_or m handler db = rescue (m db) handler
