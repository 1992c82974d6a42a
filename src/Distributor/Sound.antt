-- ===== src/Distributor/Sound.antt =====
-- The invariant of the distributor's state, and what keeps it in every handler.
use magi_tokenomics.Common.{
  ℕ, ◌≤◌, ℤ, pos, ◌+ℤ◌, +ℤ-zero, Bool, ◌≡◌, ◌≢◌, refl, sym, ◌∙◌, String, string_eq, pair_eq, Map,
  get, insert, get-insert, beq_refl, subst, ok, ok_injective, >>=-eq-ok,
}
use magi_tokenomics.Chain.{Env}
use magi_tokenomics.Auth.Round.{Config, Round, new_round}
use magi_tokenomics.Auth.Policy.{authorize}
use magi_tokenomics.Distributor.State.{State, Epoch, Key, new_epoch}
use magi_tokenomics.Distributor.Policy.{epoch_of, set_epoch, authorize_action}
use magi_tokenomics.Distributor.Covered.{Covered, Settled, residual, Covered-set, Covered-later}

-- The distributor as `self`, at a height, holding `held` tokens.
pub record Sound (self : String) (now : ℕ) (s : State) (held : ℤ) : Type 0 where
  pub owed : Covered now s.epochs s.unallocated held
  pub treasury_other : s.treasury ≢ self
  pub bps_fits : s.staked_bps ≤ 10000

pub Sound-later :
    (self : String) (now h : ℕ) (s : State) (held : ℤ)
    → now ≤ h
    → Sound self now s held
    → Sound self h s held
Sound-later self now h s held l v = record {
  owed = Covered-later now h s.epochs s.unallocated held l v.owed;
  treasury_other = v.treasury_other;
  bps_fits = v.bps_fits;
}

module _ (self : String) (now : ℕ) (k : Key) (e : Epoch) (s : State) (held : ℤ) where
  -- An epoch that is rewritten without a change of what it owes.
  pub Sound-keep :
      Settled now e
      → residual e ≡ residual (epoch_of s k)
      → Sound self now s held
      → Sound self now (set_epoch k e s) held
  unfolding set_epoch epoch_of
  Sound-keep f r v = record {
    owed =
        subst (λ x. Covered now (insert k e s.epochs) s.unallocated x) (+ℤ-zero held)
          (Covered-set now s.epochs s.unallocated held (pos 0) k e f
            (r ∙ sym (+ℤ-zero (residual (get new_epoch k s.epochs)))) v.owed);
    treasury_other = v.treasury_other;
    bps_fits = v.bps_fits;
  }

  pub Sound-set :
      (x : ℤ)
      → Settled now e
      → residual e ≡ residual (epoch_of s k) +ℤ x
      → Sound self now s held
      → Sound self now (set_epoch k e s) (held +ℤ x)
  unfolding set_epoch epoch_of
  Sound-set x f r v = record {
    owed = Covered-set now s.epochs s.unallocated held x k e f r v.owed;
    treasury_other = v.treasury_other;
    bps_fits = v.bps_fits;
  }

pub epoch_of-Settled :
    (self : String) (now : ℕ) (s : State) (held : ℤ) (k : Key)
    → Sound self now s held
    → Settled now (epoch_of s k)
unfolding epoch_of
epoch_of-Settled self now s held k v = v.owed.settled k

pub epoch_of-set_epoch : (k : Key) (e : Epoch) (s : State) → epoch_of (set_epoch k e s) k ≡ e
unfolding epoch_of set_epoch
epoch_of-set_epoch k e s = rw (get-insert, beq_refl k) refl

-- A vote changes nothing but the rounds.
pub record Voted (s s' : State) : Type 0 where
  pub rounds : Map (String × String) Round
  pub same : s' ≡ record s { rounds = rounds }

pub authorize_action-Voted :
    (hash : String → String) (cfg : Config) (role action payload : String) (env : Env) (s : State)
    (d : State × Bool)
    → authorize_action hash cfg role action payload env s ≡ ok d
    → Voted s d.0
unfolding authorize_action
authorize_action-Voted hash cfg role action payload env s d e =
    let (r, _, done) =
      >>=-eq-ok
        (authorize hash cfg env.height payload env.caller env.required_auths
          (get new_round (role, action) s.rounds))
        _ e in
    record {
      rounds = insert (role, action) r.0 s.rounds;
      same = λ i. (sym (ok_injective done) i).0;
    }

pub Voted-Sound :
    (self : String) (now : ℕ) (s s' : State) (held : ℤ)
    → Voted s s'
    → Sound self now s held
    → Sound self now s' held
Voted-Sound self now s s' held d v =
    rw d.same (record { owed = v.owed; treasury_other = v.treasury_other; bps_fits = v.bps_fits })

pub Voted-epoch_of : (s s' : State) (k : Key) → Voted s s' → epoch_of s' k ≡ epoch_of s k
unfolding epoch_of
Voted-epoch_of s s' k d = rw d.same refl

-- A policy that is pinned, and every other change that leaves status and amounts alone.
pub Settled-same :
    (now : ℕ) (e e' : Epoch)
    → e'.status ≡ e.status
    → e'.chal ≡ e.chal
    → e'.funded ≡ e.funded
    → e'.paid ≡ e.paid
    → Settled now e
    → Settled now e'
Settled-same now e e' a b c d v = record {
  nonneg = rw d v.nonneg;
  within = rw (c, d) v.within;
  early = λ q. d ∙ v.early (rw (a, b) at q);
}
