-- ===== src/Server/SharedObject.antt =====
-- modules/rt_server/global_shared_object.cpp and .h: an object that registers itself in the
-- directory, and counts its users.
pub mod Life
mod Tests
use ortd.Prelude.{
  ℕ, zero, suc, ◌+◌, ◌-◌, ◌%◌, ◌^◌, Bool, true, false, not, Option, none, some, List, [], ◌∷◌, ◌==◌,
  if◌then◌else◌,
}
use ortd.Server.Directory.{Name, Entries, add_entry, delete_file, access_userptr}

-- `ORTD_DIRECTORY_ENTRYTYPE_SHAREDOBJECT`
abbrev pub entrytype_sharedobject : ℕ
entrytype_sharedobject = 7

-- The object at the address `this`.
pub record SharedObject : Type 0 where
  pub this : ℕ
  pub ident_name : Name
  pub usage_counter : ℕ

-- How `constructor` ends: with the object and the directory, or with a thrown number.
pub data Construction : Type 0 where
  constructed : SharedObject → Entries → Construction
  throws : ℕ → Construction

-- What follows the call of `add_entry`.
pub registered : ℕ → Name → Bool × Entries → Construction
registered this name (true, es) =
    constructed (record { this = this; ident_name = name; usage_counter = 0 }) es
registered this name (false, es) = throws 3

-- `ortd_global_shared_object::constructor`; the master, and its directory, may be NULL.
pub constructor : ℕ → Name → Option (Option Entries) → Construction
constructor this name none = throws 1
constructor this name (some none) = throws 2
constructor this name (some (some es)) =
    registered this name (add_entry name entrytype_sharedobject 0 this es)

-- `register_usage`, `unregister_usage` and `isUsed`; the counter is an `int`.
pub register_usage : SharedObject → SharedObject
register_usage o = record o { usage_counter = (o.usage_counter + 1) % 2 ^ 32 }

pub unregister_usage : SharedObject → SharedObject
unregister_usage o = record o { usage_counter = (o.usage_counter + (2 ^ 32 - 1)) % 2 ^ 32 }

pub is_used : SharedObject → Bool
is_used o = if o.usage_counter == 0 then false else true

-- `~ortd_global_shared_object`: `none` is the end of the program.
pub destructor : SharedObject → Entries → Option Entries
unfolding is_used
destructor o es = if is_used o then none else some (delete_file o.ident_name es).1

-- `get_ortd_global_shared_object`
pub get_global_shared_object : Name → Option Entries → Option ℕ
get_global_shared_object name none = none
get_global_shared_object name (some es) = some (access_userptr name 0 es)

-- A number of users that come, and that go.
pub register_times : ℕ → SharedObject → SharedObject
register_times zero o = o
register_times (suc n) o = register_usage (register_times n o)

pub unregister_times : ℕ → SharedObject → SharedObject
unregister_times zero o = o
unregister_times (suc n) o = unregister_usage (unregister_times n o)
