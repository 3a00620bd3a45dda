-- ===== src/Federation/Leaving.antt =====
-- federation_state.py: what `drop_resource` leaves in the ledger.
use radical_orbit.Prelude.{
  String, ◌≡◌, refl, sym, subst, ◌∙◌, ◌≢◌, inl, inr, Bool, false, not, ◌||◌, Option, none, some, [],
  ◌∷◌, arith, if◌then◌else◌, Bool-cases, ◌==◌, nat_eq, string_eq, str_iff, option_eq, ==_refl,
  pair_eq,
}
use radical_orbit.Prelude.Int.{int_eq}
use radical_orbit.Prelude.Dict.{
  Dict, lookup, insert, remove, lookup-insert, lookup-remove, lookup-insert_self,
}
use radical_orbit.Events.Counters.{Distinct}
use radical_orbit.Federation.{
  SubmitLedgerEntry, FederationState, is_over, leave_entries, drop_resource,
}

-- What becomes of an entry.
abbrev pub after_leave : String → Bool → SubmitLedgerEntry → Option SubmitLedgerEntry
after_leave name keep_active e =
    if not (e.resource == some name)
    then some e
    else if not keep_active || is_over e
    then none
    else some (record e { resource = none; member_id = none })

module _ (name : String) (keep_active : Bool) where
  -- One round of the loop.
  abbrev left :
      String → SubmitLedgerEntry → Dict String SubmitLedgerEntry → Dict String SubmitLedgerEntry
  left tid e ledger =
      if not (e.resource == some name)
      then ledger
      else if not keep_active || is_over e
      then remove tid ledger
      else insert tid (record e { resource = none; member_id = none }) ledger

  left_other :
      (k tid : String) (e : SubmitLedgerEntry) (ledger : Dict String SubmitLedgerEntry)
      → (k == tid) ≡ false
      → lookup tid (left k e ledger) ≡ lookup tid ledger
  left_other k tid e ledger h = elim (Bool-cases (e.resource == some name)) [
    | inr a ↦ rw a refl
    | inl a ↦ rw a (elim (Bool-cases (not keep_active || is_over e)) [
      | inl b ↦ rw b (lookup-remove k tid ledger ∙ rw h refl)
      | inr b ↦
          rw b (
            lookup-insert k tid (record e { resource = none; member_id = none }) ledger ∙ rw h refl)
    ])
  ]

  left_own :
      (tid : String) (e : SubmitLedgerEntry) (ledger : Dict String SubmitLedgerEntry)
      → lookup tid ledger ≡ some e
      → lookup tid (left tid e ledger) ≡ after_leave name keep_active e
  left_own tid e ledger h = elim (Bool-cases (e.resource == some name)) [
    | inr a ↦ rw a h
    | inl a ↦ rw a (elim (Bool-cases (not keep_active || is_over e)) [
      | inl b ↦ rw b (lookup-remove tid tid ledger ∙ rw (==_refl tid) refl)
      | inr b ↦
          rw b (lookup-insert_self tid (record e { resource = none; member_id = none }) ledger)
    ])
  ]

  leave_none :
      (tid : String) (d ledger : Dict String SubmitLedgerEntry)
      → lookup tid d ≡ none
      → lookup tid (leave_entries name keep_active d ledger) ≡ lookup tid ledger
  unfolding leave_entries lookup
  leave_none tid [] ledger h = refl
  leave_none tid ((k, e) ∷ d) ledger h = elim (Bool-cases (k == tid)) [
    | inl own ↦ absurd (clash (rw own at h))
    | inr other ↦
        leave_none tid d (left k e ledger) (rw other at h) ∙ left_other k tid e ledger other
  ]
    where
      clash : some e ≢ none
      clash h = ground arith

  leave_some :
      (tid : String) (x : SubmitLedgerEntry) (d ledger : Dict String SubmitLedgerEntry)
      → Distinct d
      → lookup tid d ≡ some x
      → lookup tid ledger ≡ some x
      → lookup tid (leave_entries name keep_active d ledger) ≡ after_leave name keep_active x
  unfolding leave_entries lookup
  leave_some tid x [] ledger dd h g = absurd (clash h)
    where
      clash : ◌≢◌ {A = Option SubmitLedgerEntry} none (some x)
      clash h = ground arith
  leave_some tid x ((k, e) ∷ d) ledger (fresh, dd) h g = elim (Bool-cases (k == tid)) [
    | inl own ↦
        let name_same = (str_iff k tid).0 own in
        let entry_same = same (rw own at h) in
        leave_none tid d (left k e ledger) (subst (λ j. lookup j d ≡ none) name_same fresh)
        ∙ subst (λ j. lookup tid (left j e ledger) ≡ after_leave name keep_active x) (sym name_same)
            (subst (λ y. lookup tid (left tid y ledger) ≡ after_leave name keep_active x)
              (sym entry_same) (left_own tid x ledger g))
    | inr other ↦
        leave_some tid x d (left k e ledger) dd (rw other at h)
          (left_other k tid e ledger other ∙ g)
  ]
    where
      same : some e ≡ some x → e ≡ x
      same h = cc

abbrev pub and_after : String → Bool → Option SubmitLedgerEntry → Option SubmitLedgerEntry
and_after name keep_active none = none
and_after name keep_active (some e) = after_leave name keep_active e

leave_lookup :
    (name : String) (keep_active : Bool) (tid : String) (ledger : Dict String SubmitLedgerEntry)
    (o : Option SubmitLedgerEntry)
    → Distinct ledger
    → lookup tid ledger ≡ o
    → lookup tid (leave_entries name keep_active ledger ledger) ≡ and_after name keep_active o
leave_lookup name keep_active tid ledger none d h =
    leave_none name keep_active tid ledger ledger h ∙ h
leave_lookup name keep_active tid ledger (some e) d h =
    leave_some name keep_active tid e ledger ledger d h h

-- Where no task stands twice in the ledger, dropping a resource removes it, leaves the entries of
-- other resources as they are, and of its own removes those that are over, or all unless live
-- ones are to be kept; the ones kept lose their resource and member and nothing else.
pub drop_resource_lem :
    (name : String) (keep_active : Bool) (tid : String) (s : FederationState)
    → Distinct s.ledger
    → (lookup name (drop_resource name keep_active s).resources ≡ none)
      × (lookup tid (drop_resource name keep_active s).ledger
          ≡ and_after name keep_active (lookup tid s.ledger))
unfolding drop_resource
drop_resource_lem name keep_active tid s d = (
  lookup-remove name name s.resources ∙ rw (==_refl name) refl,
  leave_lookup name keep_active tid s.ledger (lookup tid s.ledger) d refl,
)
