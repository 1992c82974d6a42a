-- ===== src/Lib.antt =====
-- The contracts of the MAGI tokenomics framework, modelled from their Go source and verified.
--
-- The program is a set of WebAssembly contracts for one token that a separate contract keeps. The
-- emission controller (c2-emission/contract/main.go) draws the tokens of each elapsed epoch from a
-- source account by distributeEpoch, splits them over weighted buckets, and pays a bucket's target
-- by claimBucket. The distributor (c3-distributor/contract/main.go) pulls a bucket's tokens for a
-- channel and epoch, takes the epoch's share book as a Merkle root with its published pages, and
-- pays each claimant who proves a share once a challenge window is over. The staking contract
-- (c1-staking/contract/main.go) holds stakes, keeps a checkpointed history of every account and of
-- the total, queues withdrawals for a cooldown, and pays funded yield and airdrops beside. All
-- contracts reach the token through adapter/adapter.go and check authorities through auth/auth.go.
--
-- Files and the code they model:
--   Common: shared types and lemmas: Tests (Boolean tests, equality as an instance), Lists, Int
--     (big.Int as pos and negsuc over the native numbers), Division, Maps (a key family of the
--     contract's state as an association list with a default for a missing key), Results (an abort
--     as a value of Outcome: the transaction's writes are undone).
--   Chain: the environment of a call, the world (state, token ledger, log) and the address checks
--     validateAddr and isLedgerAddr; uint64 sums, differences and products wrap.
--   Adapter: Transfer, PullFrom, Approve, BalanceOfSelf, RequireFungible and RequireNoTokenId of the
--     adapter. Interface is the token contract as a record of calls and documented laws, the parameter
--     of every contract, and the funder and the staking contract as the distributor calls them; Simple
--     is a token that meets the laws; Laws is what a movement does.
--   Auth: the auth package. Active is RequireActive and RequireActiveUnlessContract; Round is what
--     attest keeps in the state under one action key; Policy is Validate, Authorize, attest,
--     clearRound and SweepStale, over any hash of a payload; Submissions and Attestation are the
--     theorems on the attest mode.
--   Text: Epoch is mustEpoch over the bytes of the text; Canonical its theorems. Fields is canon,
--     splitComma, split2, parseBig and the decimal parsers over the text itself.
--   Merkle: Hex is hexToBytes, hexNibble and bytesToHex; Proof is leafHash, nodeHashC, lessHashC and
--     verifyProof, over lists of bytes and any hash in place of SHA-256.
--   Emission: the emission controller. State is its keys; Init, Schedule (forEpoch and the catch-up
--     loop), Allocation (recordAllocations), Poke (distributeEpoch) and Claim (claimBucket and the
--     queries) its operations, in the order of the code; Catchup, Split, Records, PokeCases,
--     Solvency, Claiming, Buckets, Configured, Entries, Idle and Reachable their theorems.
--   Vault: the staking contract as a whole. State is the staking half's state with the keys of the
--     yield and airdrop halves; Setup is init and adoptSchedule; Yield is pullFunding, claimYield,
--     sweepEmptyEpoch and fundedOf; Airdrop is airdropBatch, sweepUnobligated and airdropTotal;
--     Envelope, YieldKept, SweepKept, AirdropKept and Reachable their theorems.
--   Staking: the staking half of the staking contract. State is its keys; Checkpoints is
--     appendHist, appendCkpt and searchVal; Credit is noteDrawdown and applyCredit; Epochs is
--     epochBounds and minStakeSumAt with their theorem; Entrypoints is
--     stake, stakeFor, unstake and claimUnstaked; Search, Histories, Books, Taking, Custody, Leaving,
--     Claims, Entered, Reachable and Answers their theorems.
--   Distributor: the distributor. State is its keys; Policy is what every handler starts from
--     (mustChannel, authCfg, pinPolicy, epochEnd, staleBlocks); Setup is init, addChannel, setPolicy
--     and channelInfo; Funding is pullFunding, cancelEpoch, sweepUnallocated and releaseStaleAttest;
--     Book is submitShares, submitRoot and finalizeEpoch; Claim is claim and shareOf. Covered and
--     Sound are what the invariant says and keeps; SetupSound, FundingSound, BookSound, Paid,
--     ClaimSound and Reachable the theorems; Peers is a small funder, a small staking contract and a
--     toy hash for the tests.
--   Sharecore: Tree is BuildTree, Root and Proof of reporter/sharecore/merkle.go; Climb and Accepted
--     their theorems. Curve is PowRational and IntNthRoot of reporter/sharecore/curve.go; Roots their
--     theorems. Merkle.Printed is what they need of hexadecimal texts and comma lists.
--
-- Bounds and fuel. The binary search runs on fuel, one round more than the array has entries, which
-- is enough as each round halves the interval; its result is an Option, none where the fuel ran
-- out, which the entrypoints turn into an abort of its own. claimUnstaked takes at most maxClaim
-- (20) steps, as in the code; the catch-up loop takes at most the limit given. Other loops are
-- structural recursion; the levels of a share tree are built on fuel, the number of its leaves,
-- which is enough as each level is shorter than the one below; the loops of the integer root run on
-- fuel, the guess they start from plus one, or the number plus one, which is enough as a guess
-- falls, or rises to at most the number. A payload comes as its fields, an amount as the number
-- that its field parses to, and the names of a key family are the map's keys.
-- The sum of init's bucket weights, an int in the code, has no bound in the model: more than 200000
-- buckets would be needed to wrap it. The staking contract's epoch length and genesis, which the code
-- compares with the funder's as texts, are compared as numbers. A text's bytes are its characters'
-- codes, which they are for the ASCII texts of accounts and amounts.
--
-- Not modelled: the auth package's Hash (a parameter), SHA-256 (a parameter), the value that
-- big.Int leaves of a text that it refuses (a parameter), the extraction of fields from a payload's
-- text, the share computation of the reporter beyond its curve and its tree, and the off-chain
-- programs around it (reporter shell, indexer, setup).
pub mod Common
pub mod Chain
pub mod Adapter
pub mod Auth
pub mod Text
pub mod Emission
pub mod Staking
pub mod Vault
pub mod Merkle
pub mod Sharecore
pub mod Distributor
