-- ===== src/Tests/Registrations.antt =====
-- The registration on a machine with one account that the broker does not manage.
use launch_as.Base.{
  ℕ, ◌≡◌, refl, inl, inr, Bool, true, false, not, List, [], ◌∷◌, arith, ◌==◌, if◌then◌else◌,
  Bool-cases, Wide, codes, any_of, filter, text_eq,
}
use launch_as.Accounts.{Sid, is_valid_broker_account_name}
use launch_as.Enrollments.{
  directory_of_load, store, store_keyed, store_with_key, load, load_found,
  load_or_create_machine_key,
}
use launch_as.Registration.{
  AccountProvisioner, Machine, load_enrollment, enroll, create_with_password, create, take_over,
  take_over_with_password, take_over_or_create, takeover_error, reset_password, delete,
}
use launch_as.Registration.Managed.{
  manages, HasSids, create-manages, take_over-manages, delete-unmanaged, reset_password-unmanaged,
}
use launch_as.Tests.Enrolled.{windows, windows-IsWindows, fine, agent_sid, nothing}

-- The accounts are the names of those that exist; all have the same SID.
abbrev pub Accounts : Type 0
Accounts = List Wide

abbrev has_account : Wide → Accounts → Bool
has_account name accounts = any_of (text_eq name) accounts

abbrev sid_of : Wide → Accounts → ℕ × Sid
sid_of name accounts = if has_account name accounts then (0, agent_sid) else (1332, [])

abbrev pub provisioner : AccountProvisioner Accounts
provisioner = record {
  generate_password = λ accounts. (0, codes "secret");
  account_sid = sid_of;
  create_account = λ name password accounts.
      if has_account name accounts then (2224, accounts) else (0, name ∷ accounts);
  take_over_account = λ name password allow_enable accounts.
      if has_account name accounts then (0, accounts) else (2221, accounts);
  set_password = λ name password accounts. (0, accounts);
  delete_account = λ name accounts. (0, filter (λ other. not (text_eq name other)) accounts);
}

provisioner-HasSids : HasSids windows provisioner
provisioner-HasSids = record {
  whole = λ name accounts h. elim (Bool-cases (has_account name accounts)) [
    | inl e ↦ rw e refl
    | inr e ↦ rw e refl
  ];
  short = λ name accounts h. elim (Bool-cases (has_account name accounts)) [
    | inl e ↦ rw e (omega arith)
    | inr e ↦ rw e (omega arith)
  ];
}

abbrev pub machine : Machine Accounts
machine = record { accounts = codes "guest" ∷ []; directory = nothing }

create-manages_example :
    manages windows provisioner fine
      ((create windows provisioner fine fine (codes "agent") machine).1)
      (codes "agent")
    ≡ true
unfolding create create_with_password enroll load_enrollment load load_found store store_keyed
    store_with_key load_or_create_machine_key directory_of_load is_valid_broker_account_name
create-manages_example =
    create-manages windows provisioner fine fine windows-IsWindows provisioner-HasSids fine
      (record { opens = refl; opens_key = refl; tags = refl }) refl (codes "agent") machine refl

take_over-manages_example :
    manages windows provisioner fine
      ((take_over windows provisioner fine fine (codes "guest") false machine).1)
      (codes "guest")
    ≡ true
unfolding take_over take_over_with_password take_over_or_create enroll takeover_error
    load_enrollment load load_found store store_keyed store_with_key load_or_create_machine_key
    directory_of_load is_valid_broker_account_name
take_over-manages_example =
    take_over-manages windows provisioner fine fine windows-IsWindows provisioner-HasSids fine
      (record { opens = refl; opens_key = refl; tags = refl }) refl (codes "guest") false machine
      refl

delete-unmanaged_example :
    ((delete windows provisioner fine fine (codes "guest") machine).1).accounts ≡ codes "guest" ∷ []
unfolding load_enrollment load load_found is_valid_broker_account_name
delete-unmanaged_example =
    delete-unmanaged windows provisioner fine fine (codes "guest") machine refl

reset_password-unmanaged_example :
    (((reset_password windows provisioner fine fine (codes "guest") (codes "x") machine).1).accounts
      ≡ codes "guest" ∷ [])
    × (((reset_password windows provisioner fine fine (codes "guest") (codes "x") machine).0 == 0)
        ≡ false)
unfolding load_enrollment load load_found is_valid_broker_account_name
reset_password-unmanaged_example =
    reset_password-unmanaged windows provisioner fine fine (codes "guest") (codes "x") machine refl
