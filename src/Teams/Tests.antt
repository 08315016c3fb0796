-- ===== src/Teams/Tests.antt =====
-- Staff invites on concrete rows.
use pathway_backend.Prelude.{
  String, true, false, some, List, [], ◌∷◌, ◌≡◌, refl, ◌↔◌, string_Eq, All, count_where, Memᴰ, ◌≢◌,
  ◌⊎◌, ℕ, find, ◌==◌,
}
use pathway_backend.Database.Reference.{reference, reference_laws}
use pathway_backend.Roles.{editor}
use pathway_backend.Teams.{
  pending, claimed, refused, InviteClaimFailure, invite_email_mismatch, StaffInvite, Claimant,
  status_of, status_where, new_invite, create_invite, claim_invite, claim_refusal,
}
use pathway_backend.Teams.Status.{status_where_iff}
use pathway_backend.Teams.Claim.{MayClaim, claim_invite_iff, claim_invite_once}
use pathway_backend.Teams.Create.{
  pending_for, create_invite-one_pending, NotBoth, Reach, Reach-NotBoth, Step,
}

abbrev same_text : String → String
same_text s = s

abbrev invite : StaffInvite
invite =
    new_invite same_text same_text (record { email = "a@x"; role = editor }) "boss" 10 "tok" "i1" 10

abbrev invites : List StaffInvite
invites = invite ∷ []

abbrev ann : Claimant
ann = record { email = "a@x"; email_verified_at = some 3 }

abbrev bob : Claimant
bob = record { email = "b@x"; email_verified_at = some 3 }

claim_tests :
    ((claim_invite reference same_text same_text "tok" ann 20 invites).0 ≡ claimed "i1" editor)
    × ((claim_invite reference same_text same_text "tok" bob 20 invites).0
        ≡ refused invite_email_mismatch)
unfolding claim_invite claim_refusal
claim_tests = (refl, refl)

status_where_iff_example : (status_where pending 20 invite ≡ true) ↔ (status_of invite 20 ≡ pending)
status_where_iff_example = status_where_iff pending 20 invite

is_pending : status_of invite 20 ≡ pending
unfolding status_of
is_pending = refl

late : status_of invite 100_000_000 ≡ pending → ⊥
unfolding status_of
late e = cc

claim_invite_iff_example :
    ((claim_invite reference same_text same_text "tok" ann 20 invites).0 ≡ claimed "i1" editor)
    ↔ MayClaim same_text same_text invite "tok" ann 20
claim_invite_iff_example =
    claim_invite_iff same_text same_text reference reference_laws "tok" ann 20 invites invite refl

claim_invite_once_example :
    let (first, after) = claim_invite reference same_text same_text "tok" ann 20 invites in
    ((reason : InviteClaimFailure) × (first ≡ refused reason) × (after ≡ invites))
    ⊎ ((i : StaffInvite) × (first ≡ claimed i.id i.role)
        × (find (λ (x : StaffInvite). x.token_hash == "tok") invites ≡ some i)
        × (find (λ (x : StaffInvite). x.token_hash == "tok") after
            ≡ some (record i { accepted_at = some 20 }))
        × ((other : String)
            → other ≢ i.id
            → find (λ (x : StaffInvite). x.id == other) after
              ≡ find (λ (x : StaffInvite). x.id == other) invites)
        × ((c : Claimant) (later : ℕ)
            → (reason : InviteClaimFailure) × (claim_invite reference same_text same_text "tok" c
                  later after
                ≡ (refused reason, after))))
claim_invite_once_example =
    claim_invite_once same_text same_text reference reference_laws "tok" ann 20 invites

create_invite-one_pending_example :
    let (_, _, after) =
      create_invite reference same_text same_text
        (record { email = "a@x"; role = editor })
        "boss"
        20
        "tok2"
        "i2"
        20
        true
        invites in
    (count_where (pending_for "a@x" 20) after ≡ 1)
    × Memᴰ
        (new_invite same_text same_text
          (record { email = "a@x"; role = editor })
          "boss"
          20
          "tok2"
          "i2"
          20)
        after
    × All (λ i. pending_for "a@x" 20 i ≡ false → Memᴰ i after) invites
create_invite-one_pending_example =
    create_invite-one_pending same_text same_text reference reference_laws
      (record { email = "a@x"; role = editor }) "boss" 20 "tok2" "i2" 20 true invites

abbrev one_created :
    Reach same_text same_text reference reference_laws
      (create_invite reference same_text same_text
        (record { email = "a@x"; role = editor })
        "boss"
        10
        "tok"
        "i1"
        10
        false
        []).2
one_created =
    Reach.next Reach.empty
      (Step.created (record { email = "a@x"; role = editor }) "boss" 10 "tok" "i1" 10 false)

Reach-NotBoth_example :
    All NotBoth
      (create_invite reference same_text same_text
        (record { email = "a@x"; role = editor })
        "boss"
        10
        "tok"
        "i1"
        10
        false
        []).2
Reach-NotBoth_example = Reach-NotBoth same_text same_text reference reference_laws one_created
