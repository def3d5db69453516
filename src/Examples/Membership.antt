-- ===== src/Examples/Membership.antt =====
-- Runs of the commands that change a group.
use dns_messenger.Prelude.{
  ◌≡◌, ◌&&◌, ◌||◌, some, ◌++◌, list_eq, replicate, if◌then◌else◌, list_nat_eq,
}
use dns_messenger.Prelude.Text.{Text, text}
use dns_messenger.Protocol.{b32encode}
use dns_messenger.Relay.Groups.Membership.{in_group, key_in}
use dns_messenger.Relay.Invites.{apply_ginvite}
use dns_messenger.Relay.Invites.Signed.{may_invite, sealed_key, in_group-apply_ginvite}
use dns_messenger.Examples.{toy, alice, carol, team_id, with_team}

abbrev invitation : Text
invitation = b32encode (replicate 64 7) ++ text "sealed"

in_group-apply_ginvite_example :
    (in_group team_id carol (apply_ginvite toy team_id alice carol invitation with_team).1.groups
      ≡ (in_group team_id carol with_team.groups
          || may_invite toy team_id alice carol invitation with_team
            && list_eq team_id team_id
            && list_eq carol carol))
    × (key_in team_id carol (apply_ginvite toy team_id alice carol invitation with_team).1.groups
        ≡ (if may_invite toy team_id alice carol invitation with_team
              && list_eq team_id team_id
              && list_eq carol carol
            then some (sealed_key alice invitation with_team)
            else key_in team_id carol with_team.groups))
in_group-apply_ginvite_example =
    in_group-apply_ginvite toy team_id alice carol invitation with_team team_id carol
