-- ===== src/Security/Acl.antt =====
-- kernel/src/security/mod.rs, `AccessList`: what a lookup sees after a write.
use alaphi_os.Base.{
  ℕ, ◌≡◌, true, false, ◌&&◌, none, List, [], ◌∷◌, ◌++◌, ◌==◌, if◌then◌else◌, arith, is_some,
}
use alaphi_os.Base.Map.{get, get-insert, nat_key}
use alaphi_os.Security.{
  AccessEntry, AccessList, find_entry, retain_others, write_entry, rights_of, lookup,
  entries_or_new, set_entries, set,
}

rights_in : ℕ → List AccessEntry → ℕ
unfolding find_entry rights_of
rights_in d es = rights_of (find_entry d es)

find-retain_others :
    (domain d : ℕ) (es : List AccessEntry)
    → find_entry d (retain_others domain es) ≡ (if d == domain then none else find_entry d es)
unfolding find_entry retain_others
find-retain_others domain d [] = ground arith
find-retain_others domain d (e ∷ es) = ground (arith, find-retain_others domain d es)

find-write_entry :
    (domain d rights : ℕ) (es : List AccessEntry)
    → is_some (find_entry domain es) ≡ true
    → rights_of (find_entry d (write_entry domain rights es))
      ≡ (if d == domain then rights else rights_of (find_entry d es))
unfolding find_entry write_entry rights_of
find-write_entry domain d rights [] h = ground arith
find-write_entry domain d rights (e ∷ es) h = ground (arith, find-write_entry domain d rights es)

find-append :
    (domain d rights : ℕ) (es : List AccessEntry)
    → is_some (find_entry domain es) ≡ false
    → rights_of (find_entry d (es ++ (record { domain = domain; rights = rights } ∷ [])))
      ≡ (if d == domain then rights else rights_of (find_entry d es))
unfolding find_entry rights_of
find-append domain d rights [] h = ground arith
find-append domain d rights (e ∷ es) h = ground (arith, find-append domain d rights es)

rights-set_entries :
    (domain d rights : ℕ) (es : List AccessEntry)
    → rights_of (find_entry d (set_entries domain rights es))
      ≡ (if d == domain then rights else rights_of (find_entry d es))
unfolding set_entries rights_of
rights-set_entries domain d rights es = ground (
  arith,
  find-retain_others domain d es,
  find-write_entry domain d rights es,
  find-append domain d rights es,
)

-- A write changes the rights of its own domain on its own object, to exactly what is written (an
-- empty set of rights included), and no other entry of the matrix.
pub lookup-set :
    (acl : AccessList) (domain object rights d o : ℕ)
    → lookup (set acl domain object rights) d o
      ≡ (if d == domain && o == object then rights else lookup acl d o)
unfolding lookup set entries_or_new
lookup-set acl domain object rights d o =
    let written = set_entries domain rights (entries_or_new (get object acl.objects)) in
    ground (
      arith,
      get-insert object o written acl.objects,
      rights-set_entries domain d rights (entries_or_new (get object acl.objects)),
    )
