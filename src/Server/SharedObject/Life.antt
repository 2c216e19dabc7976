-- ===== src/Server/SharedObject/Life.antt =====
-- The life of a shared object: from its registration to the deletion of its directory entry.
use ortd.Prelude.{
  ℕ, zero, suc, ◌+◌, ◌^◌, ◌<◌, ◌≡◌, ◌≢◌, refl, sym, ap, ◌∙◌, inl, inr, Bool, true, false, none,
  some, arith,
}
use ortd.Server.Directory.{
  Name, Entry, Entries, up, get_entry, add_entry, delete_file, access_userptr, access2, of_class,
  userptr_of,
}
use ortd.Server.Directory.Refine.{
  IsValid, Sets, new_entry, same_name, add_entry_lem, delete_file_lem,
}
use ortd.Server.SharedObject.{
  SharedObject, Construction, constructed, throws, registered, constructor, register_usage,
  unregister_usage, is_used, destructor, register_times, unregister_times, get_global_shared_object,
  entrytype_sharedobject,
}

-- A construction in the directory `es` that succeeds: the new object has no users, the directory is
-- valid, and the object is what is found under its name; nothing else has changed.
pub record Registers (this : ℕ) (name : Name) (es : Entries) (c : Construction) : Type 0 where
  pub object : SharedObject
  pub entries : Entries
  pub result : c ≡ constructed object entries
  pub ident_name : object.ident_name ≡ name
  pub unused : object.usage_counter ≡ 0
  pub sets : Sets name (some (new_entry entrytype_sharedobject 0 this)) es entries
  pub found : get_global_shared_object name (some entries) ≡ some this

found_lem :
    (this : ℕ) (name : Name) (es : Entries)
    → get_entry name es ≡ some (new_entry entrytype_sharedobject 0 this)
    → get_global_shared_object name (some es) ≡ some this
unfolding get_global_shared_object access_userptr access2 of_class userptr_of
found_lem this name es h = rw h refl

registered_lem :
    (this : ℕ) (name : Name) (es : Entries) (r : Bool × Entries)
    → r.0 ≡ true
    → Sets name (some (new_entry entrytype_sharedobject 0 this)) es r.1
    → Registers this name es (registered this name r)
unfolding registered
registered_lem this name es (true, fs) e s = record {
  object = record { this = this; ident_name = name; usage_counter = 0 };
  entries = fs;
  result = refl;
  ident_name = refl;
  unused = refl;
  sets = s;
  found = found_lem this name fs s.value;
}
registered_lem this name es (false, fs) e s = cc

-- In a valid directory and for a name other than "..", `constructor` succeeds exactly if the name is
-- free, and throws 3 if it is taken.
pub constructor_lem :
    (this : ℕ) (name : Name) (es : Entries)
    → IsValid es
    → name ≢ up
    → (get_entry name es ≡ none → Registers this name es (constructor this name (some (some es))))
      × ((e : Entry)
          → get_entry name es ≡ some e
          → constructor this name (some (some es)) ≡ throws 3)
unfolding constructor registered
constructor_lem this name es v ne =
    let a = add_entry_lem name entrytype_sharedobject 0 this es v ne in
    (
      λ h.
          registered_lem this name es (add_entry name entrytype_sharedobject 0 this es) (a.0 h).0
            (a.0 h).1,
      λ e h. rw (a.1 e h) refl,
    )

register_times_lem :
    (n : ℕ) (o : SharedObject)
    → o.usage_counter ≡ 0
    → n < 2 ^ 32
    → ((register_times n o).usage_counter ≡ n) × ((register_times n o).ident_name ≡ o.ident_name)
unfolding register_times register_usage
register_times_lem zero o e h = (e, refl)
register_times_lem (suc n) o e h =
    let (ih, k) = register_times_lem n o e (omega arith) in (omega arith, k)

unregister_times_lem :
    (m n : ℕ) (o : SharedObject)
    → o.usage_counter ≡ m + n
    → m + n < 2 ^ 32
    → ((unregister_times n o).usage_counter ≡ m)
      × ((unregister_times n o).ident_name ≡ o.ident_name)
unfolding unregister_times unregister_usage
unregister_times_lem m zero o e h = (omega arith, refl)
unregister_times_lem m (suc n) o e h =
    let (ih, k) = unregister_times_lem (suc m) n o (omega arith) (omega arith) in (omega arith, k)

destructor_unused :
    (o : SharedObject) (es : Entries)
    → o.usage_counter ≡ 0
    → destructor o es ≡ some (delete_file o.ident_name es).1
unfolding destructor is_used
destructor_unused o es e = rw e refl

destructor_used : (o : SharedObject) (es : Entries) → 0 < o.usage_counter → destructor o es ≡ none
unfolding destructor is_used
destructor_used o es h = ground arith

-- An object that has been registered under a free name in a valid directory, with at most 2 ^ 32 - 1
-- users: while not all of them have gone, the destructor ends the program; when they have, it
-- succeeds, and the directory is then the one before the construction, for every name.
pub life_lem :
    (this : ℕ) (name : Name) (es : Entries)
    → IsValid es
    → name ≢ up
    → get_entry name es ≡ none
    → (r : Registers this name es (constructor this name (some (some es)))) → (n m : ℕ)
    → n + m < 2 ^ 32
    → (0 < n → destructor (unregister_times m (register_times (n + m) r.object)) r.entries ≡ none)
      × (n ≡ 0
          → (fs : Entries) × ((destructor
                  (unregister_times m (register_times (n + m) r.object))
                  r.entries
                ≡ some fs)
              × (IsValid fs × ((k : Name) → get_entry k fs ≡ get_entry k es))))
life_lem this name es v ne free r n m h =
    let (a, i) = register_times_lem (n + m) r.object r.unused h in
    let (b, j) = unregister_times_lem n m (register_times (n + m) r.object) a h in
    let (d, e) =
      (delete_file_lem name r.entries r.sets.valid ne).1 (new_entry entrytype_sharedobject 0 this)
        r.sets.value in
    let o = unregister_times m (register_times (n + m) r.object) in
    (
      λ p. destructor_used o r.entries (omega arith),
      λ z. (
        (delete_file name r.entries).1,
        (
          destructor_unused o r.entries (b ∙ z)
              ∙ ap (λ x. some (delete_file x r.entries).1) (j ∙ i ∙ r.ident_name),
          (
            e.valid,
            λ k. elim (same_name k name) [
              | inl q ↦ rw q (e.value ∙ sym free)
              | inr q ↦ e.others k q ∙ r.sets.others k q
            ],
          ),
        ),
      ),
    )
