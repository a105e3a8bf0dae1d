-- ===== src/Contract/Abi/Transactions.antt =====
-- The methods that change the state of the chain.
use libp2p_submission_sequen.Prelude.{codes, List, [], ◌∷◌}
use libp2p_submission_sequen.Contract.Abi.Types.{
  AbiMethod, address, uint, bool, string, bytes, fixed_bytes, array, struct, transaction,
}

abbrev pub transactions : List AbiMethod
transactions =
    transaction "assignSnapshotterToSlotBulk" ((array (uint 256)) ∷ (array address) ∷ []) []
    ∷ transaction "createDataMarket" (address ∷ (uint 8) ∷ (uint 256) ∷ (uint 256) ∷ bool ∷ [])
        (address ∷ [])
    ∷ transaction "endBatchSubmissions" (address ∷ (uint 256) ∷ []) []
    ∷ transaction "forceCompleteConsensusAttestations" (address ∷ (uint 256) ∷ (uint 256) ∷ []) []
    ∷ transaction "forceSkipEpoch" (address ∷ (uint 256) ∷ (uint 256) ∷ []) []
    ∷ transaction "initialize" (address ∷ []) []
    ∷ transaction "loadCurrentDay" (address ∷ (uint 256) ∷ []) []
    ∷ transaction "loadSlotSubmissions" (address ∷ (uint 256) ∷ (uint 256) ∷ (uint 256) ∷ []) []
    ∷ transaction "releaseEpoch" (address ∷ (uint 256) ∷ (uint 256) ∷ []) []
    ∷ transaction "renounceOwnership" [] []
    ∷ transaction "setSequencerId" (address ∷ string ∷ []) []
    ∷ transaction "submitBatchAttestation"
        (address ∷ (uint 256) ∷ (uint 256) ∷ (fixed_bytes 32) ∷ []) []
    ∷ transaction "submitSnapshot"
        (address
          ∷ (uint 256)
          ∷ string
          ∷ (uint 256)
          ∷ string
          ∷ (struct (codes "PowerloomDataMarket.Request"))
          ∷ bytes
          ∷ [])
        []
    ∷ transaction "submitSubmissionBatch"
        (address
          ∷ string
          ∷ (uint 256)
          ∷ (uint 256)
          ∷ (array string)
          ∷ (array string)
          ∷ (fixed_bytes 32)
          ∷ [])
        []
    ∷ transaction "toggleDataMarket" (address ∷ bool ∷ []) []
    ∷ transaction "toggleFallback" (address ∷ []) []
    ∷ transaction "toggleRewards" (address ∷ []) []
    ∷ transaction "transferOwnership" (address ∷ []) []
    ∷ transaction "updateAddresses" (address ∷ (uint 8) ∷ (array address) ∷ (array bool) ∷ []) []
    ∷ transaction "updateAllowedProjectType" (address ∷ string ∷ bool ∷ []) []
    ∷ transaction "updateAttestationSubmissionWindow" (address ∷ (uint 256) ∷ []) []
    ∷ transaction "updateBatchSubmissionWindow" (address ∷ (uint 256) ∷ []) []
    ∷ transaction "updateDailySnapshotQuota" (address ∷ (uint 256) ∷ []) []
    ∷ transaction "updateDataMarketFactory" (address ∷ []) []
    ∷ transaction "updateEpochManager" (address ∷ address ∷ []) []
    ∷ transaction "updateFallbackNodes" (address ∷ (array address) ∷ (array bool) ∷ []) []
    ∷ transaction "updateMinAttestationsForConsensus" (address ∷ (uint 256) ∷ []) []
    ∷ transaction "updateMinSnapshottersForConsensus" (address ∷ (uint 256) ∷ []) []
    ∷ transaction "updateProjects" (address ∷ (array string) ∷ (array bool) ∷ []) []
    ∷ transaction "updateRewardBasePoints" (address ∷ (uint 256) ∷ []) []
    ∷ transaction "updateRewards"
        (address ∷ (array (uint 256)) ∷ (array (uint 256)) ∷ (uint 256) ∷ []) []
    ∷ transaction "updateSnapshotSubmissionWindow" (address ∷ (uint 256) ∷ []) []
    ∷ transaction "updateSnapshotterState" (address ∷ []) []
    ∷ transaction "upgradeToAndCall" (address ∷ bytes ∷ []) []
    ∷ []
