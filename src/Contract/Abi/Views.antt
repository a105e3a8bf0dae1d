-- ===== src/Contract/Abi/Views.antt =====
-- The methods that only read.
use libp2p_submission_sequen.Prelude.{codes, List, [], ◌∷◌}
use libp2p_submission_sequen.Contract.Abi.Types.{
  AbiMethod, address, uint, bool, string, fixed_bytes, array, struct, view,
}

abbrev pub views : List AbiMethod
views =
    view "EPOCH_SIZE" (address ∷ []) ((uint 8) ∷ [])
    ∷ view "SOURCE_CHAIN_BLOCK_TIME" (address ∷ []) ((uint 256) ∷ [])
    ∷ view "SOURCE_CHAIN_ID" (address ∷ []) ((uint 256) ∷ [])
    ∷ view "UPGRADE_INTERFACE_VERSION" [] (string ∷ [])
    ∷ view "USE_BLOCK_NUMBER_AS_EPOCH_ID" (address ∷ []) (bool ∷ [])
    ∷ view "allSnapshotters" (address ∷ []) (bool ∷ [])
    ∷ view "allowedProjectTypes" (address ∷ string ∷ []) (bool ∷ [])
    ∷ view "attestationSubmissionWindow" (address ∷ []) ((uint 256) ∷ [])
    ∷ view "attestationsReceived" (address ∷ (uint 256) ∷ address ∷ []) (bool ∷ [])
    ∷ view "attestationsReceivedCount" (address ∷ (uint 256) ∷ (fixed_bytes 32) ∷ [])
        ((uint 256) ∷ [])
    ∷ view "batchIdAttestationStatus" (address ∷ (uint 256) ∷ []) (bool ∷ [])
    ∷ view "batchIdDivergentValidators" (address ∷ (uint 256) ∷ (uint 256) ∷ []) (address ∷ [])
    ∷ view "batchIdSequencerAttestation" (address ∷ (uint 256) ∷ []) ((fixed_bytes 32) ∷ [])
    ∷ view "batchIdToProjects" (address ∷ (uint 256) ∷ []) ((array string) ∷ [])
    ∷ view "batchSubmissionWindow" (address ∷ []) ((uint 256) ∷ [])
    ∷ view "checkDynamicConsensusAttestations" (address ∷ (uint 256) ∷ (uint 256) ∷ []) (bool ∷ [])
    ∷ view "checkSlotTaskStatusForDay" (address ∷ (uint 256) ∷ (uint 256) ∷ []) (bool ∷ [])
    ∷ view "currentBatchId" (address ∷ []) ((uint 256) ∷ [])
    ∷ view "currentEpoch" (address ∷ []) ((uint 256) ∷ (uint 256) ∷ (uint 256) ∷ [])
    ∷ view "dailySnapshotQuota" (address ∷ []) ((uint 256) ∷ [])
    ∷ view "dataMarketCount" [] ((uint 8) ∷ [])
    ∷ view "dataMarketEnabled" (address ∷ []) (bool ∷ [])
    ∷ view "dataMarketFactory" [] (address ∷ [])
    ∷ view "dataMarketIdToAddress" ((uint 8) ∷ []) (address ∷ [])
    ∷ view "dataMarkets" (address ∷ [])
        (address ∷ (uint 8) ∷ (uint 256) ∷ (uint 256) ∷ bool ∷ bool ∷ address ∷ (uint 256) ∷ [])
    ∷ view "dayCounter" (address ∷ []) ((uint 256) ∷ [])
    ∷ view "deploymentBlockNumber" (address ∷ []) ((uint 256) ∷ [])
    ∷ view "epochIdToBatchIds" (address ∷ (uint 256) ∷ []) ((array (uint 256)) ∷ [])
    ∷ view "epochInfo" (address ∷ (uint 256) ∷ []) ((uint 256) ∷ (uint 256) ∷ (uint 256) ∷ [])
    ∷ view "epochManager" (address ∷ []) (address ∷ [])
    ∷ view "epochsInADay" (address ∷ []) ((uint 256) ∷ [])
    ∷ view "getEpochManager" (address ∷ []) (address ∷ [])
    ∷ view "getSequencerId" (address ∷ []) (string ∷ [])
    ∷ view "getSequencers" (address ∷ []) ((array address) ∷ [])
    ∷ view "getSlotInfo" (address ∷ (uint 256) ∷ [])
        ((struct (codes "PowerloomDataMarket.SlotInfo")) ∷ [])
    ∷ view "getSlotRewards" ((uint 256) ∷ []) ((uint 256) ∷ [])
    ∷ view "getTotalSequencersCount" (address ∷ []) ((uint 256) ∷ [])
    ∷ view "getTotalSnapshotterCount" [] ((uint 256) ∷ [])
    ∷ view "getTotalValidatorsCount" (address ∷ []) ((uint 256) ∷ [])
    ∷ view "getValidators" (address ∷ []) ((array address) ∷ [])
    ∷ view "lastFinalizedSnapshot" (address ∷ string ∷ []) ((uint 256) ∷ [])
    ∷ view "maxAttestationFinalizedRootHash" (address ∷ (uint 256) ∷ []) ((fixed_bytes 32) ∷ [])
    ∷ view "maxAttestationsCount" (address ∷ (uint 256) ∷ []) ((uint 256) ∷ [])
    ∷ view "maxSnapshotsCid" (address ∷ string ∷ (uint 256) ∷ []) (string ∷ [])
    ∷ view "minAttestationsForConsensus" (address ∷ []) ((uint 256) ∷ [])
    ∷ view "minSubmissionsForConsensus" (address ∷ []) ((uint 256) ∷ [])
    ∷ view "owner" [] (address ∷ [])
    ∷ view "projectFirstEpochId" (address ∷ string ∷ []) ((uint 256) ∷ [])
    ∷ view "proxiableUUID" [] ((fixed_bytes 32) ∷ [])
    ∷ view "rewardBasePoints" (address ∷ []) ((uint 256) ∷ [])
    ∷ view "rewardsEnabled" (address ∷ []) (bool ∷ [])
    ∷ view "slotCounter" [] ((uint 256) ∷ [])
    ∷ view "slotRewardPoints" (address ∷ (uint 256) ∷ []) ((uint 256) ∷ [])
    ∷ view "slotRewards" ((uint 256) ∷ []) ((uint 256) ∷ [])
    ∷ view "slotSnapshotterMapping" ((uint 256) ∷ []) (address ∷ [])
    ∷ view "slotSubmissionCount" (address ∷ (uint 256) ∷ (uint 256) ∷ []) ((uint 256) ∷ [])
    ∷ view "snapshotStatus" (address ∷ string ∷ (uint 256) ∷ [])
        ((uint 8) ∷ string ∷ (uint 256) ∷ [])
    ∷ view "snapshotSubmissionWindow" (address ∷ []) ((uint 256) ∷ [])
    ∷ view "snapshotterState" [] (address ∷ [])
    ∷ []
