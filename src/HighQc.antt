-- ===== src/HighQc.antt =====
-- The parts of synchronizer/synchronizer.go that the voting rules call: UpdateHighQC and SyncInfo.
pub mod Raises
use hotstuff_repbased_leader.Prelude.{none, some, ltb, leb, if◌then◌else◌}
use hotstuff_repbased_leader.Types.{QuorumCert, SyncInfo, Block, new_sync_info, with_qc, with_tc}
use hotstuff_repbased_leader.Crypto.Base.{verify_quorum_cert}
use hotstuff_repbased_leader.State.{Replica, Env, panic}
use hotstuff_repbased_leader.Access.{emit, get_block}

-- The comparison at the end of `UpdateHighQC`, once both blocks are found.
unfoldable pub raise_high_qc : QuorumCert → Block → Block → Replica → Replica
raise_high_qc qc new_block old_block r =
    if ltb old_block.view new_block.view
    then record r { high_qc = qc; leaf_block = new_block }
    else r

unfoldable pub compare_high_qc : Env → QuorumCert → Block → Replica → Replica
unfolding raise_high_qc emit get_block
compare_high_qc env qc new_block r =
    let (r', old) = get_block env r.high_qc.hash r in
    elim old [ none ↦ emit panic r' | some old_block ↦ raise_high_qc qc new_block old_block r' ]

unfoldable pub update_high_qc : Env → QuorumCert → Replica → Replica
unfolding compare_high_qc get_block
update_high_qc env qc r =
    if verify_quorum_cert env.sha256 env.impl qc
    then (let (r', found) = get_block env qc.hash r in
        elim found [ none ↦ r' | some new_block ↦ compare_high_qc env qc new_block r' ])
    else r

unfoldable pub sync_info : Replica → SyncInfo
unfolding new_sync_info with_qc with_tc
sync_info r =
    if leb r.high_tc.view r.high_qc.view
    then with_qc new_sync_info r.high_qc
    else with_tc (with_qc new_sync_info r.high_qc) r.high_tc
