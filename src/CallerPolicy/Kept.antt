-- ===== src/CallerPolicy/Kept.antt =====
-- src/broker/BrokerCallerPolicy.cpp: who may call the broker after an update of the policy.
use launch_as.Base.{
  ◌≤◌, ◌<◌, ◌≡◌, refl, ap, ◌∙◌, Bool, true, false, ◌&&◌, Option, some, [], ◌∷◌, arith, ◌==◌, within,
  Bytes, length, text_eq_refl,
}
use launch_as.CallerPolicy.{
  take, Sid, SidChecks, PolicyCalls, AuthorizedCallerPolicyUpdate, preserve, replace,
  security_max_sid_size, is_complete_sid, store_authorized_caller_sid, load_authorized_caller_sid,
  update_authorized_caller_policy, is_authorized_caller,
}

-- Who is authorized by the policy: whoever has the SID that is loaded.
abbrev pub authorizes : SidChecks → PolicyCalls → Option Bytes → Sid → Bool
authorizes sids calls file caller =
    (load_authorized_caller_sid sids calls file).0 == 0
    && is_authorized_caller sids ((load_authorized_caller_sid sids calls file).1) caller

-- A policy stands already that the update is to preserve.
abbrev pub stands : SidChecks → PolicyCalls → AuthorizedCallerPolicyUpdate → Option Bytes → Bool
stands sids calls replace file = false
stands sids calls preserve file = (load_authorized_caller_sid sids calls file).0 == 0

-- The calls of a Load that succeed.
pub record IsReadable (later : PolicyCalls) : Type 0 where
  pub opens : later.open_error ≡ 0
  pub sizes : later.size_error ≡ 0
  pub reads : later.read_error ≡ 0

take_all : (bytes : Bytes) → take (length bytes) bytes ≡ bytes
take_all [] = refl
take_all (b ∷ bytes) = ap (λ more. b ∷ more) (take_all bytes)

is_complete_sid-length :
    (sids : SidChecks) (sid : Sid) → is_complete_sid sids sid ≡ true → 0 < length sid
unfolding is_complete_sid
is_complete_sid-length sids [] h = cc
is_complete_sid-length sids (b ∷ sid) h = omega arith

module _ (sids : SidChecks) (calls later : PolicyCalls) (readable : IsReadable later) (caller : Sid)
    (complete : is_complete_sid sids caller ≡ true)
    (short : length caller ≤ security_max_sid_size) where
  authorizes-stored : authorizes sids later (some caller) caller ≡ true
  unfolding load_authorized_caller_sid is_authorized_caller is_complete_sid
  authorizes-stored =
      let given : within 1 security_max_sid_size (length caller) ≡ true =
        ground (arith, is_complete_sid-length sids caller complete) in
      rw (readable.opens, readable.sizes, readable.reads, given, complete)
        (ground (arith, complete, text_eq_refl caller))

  whole : take (sids.length_sid caller) caller ≡ caller
  unfolding is_complete_sid
  whole =
      let same : sids.length_sid caller ≡ length caller = ground arith in
      ap (λ n. take n caller) same ∙ take_all caller

  store-authorizes :
      (file : Option Bytes)
      → (store_authorized_caller_sid sids calls caller file).0 ≡ 0
      → authorizes sids later ((store_authorized_caller_sid sids calls caller file).1) caller ≡ true
  unfolding store_authorized_caller_sid
  store-authorizes file h = rw whole (ground (arith, authorizes-stored))

  -- Where the caller's SID is complete and at most 68 bytes long and the calls of a later load
  -- succeed: after an update of the policy that succeeds, and that has no policy to preserve, the
  -- policy authorizes the caller.
  pub update-authorizes :
      (update : AuthorizedCallerPolicyUpdate) (file : Option Bytes)
      → (update_authorized_caller_policy sids calls caller update file).0 ≡ 0
      → stands sids calls update file ≡ false
      → authorizes sids later
          ((update_authorized_caller_policy sids calls caller update file).1)
          caller
        ≡ true
  unfolding update_authorized_caller_policy
  update-authorizes replace file h new = store-authorizes file h
  update-authorizes preserve file h new = ground (arith, store-authorizes file)
